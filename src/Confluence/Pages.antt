-- ===== src/Confluence/Pages.antt =====
-- The pages of an export and their properties: pkg/export/confluence/export.go, the types of
-- reconcile.go and item of plan.go.
use docz.Prelude.{ℕ, Bool, Option, List, []}
use docz.Text.{Text, codes}
use docz.Text.Dict.{Dict}

-- item; a parent of -1 is `none`
pub record Item : Type 0 where
  pub key : Text
  pub doc_id : Text
  pub title : Text
  pub source : Text
  pub src : Text
  pub override : Text
  pub parent : Option ℕ

pub record Rendered : Type 0 where
  pub title : Text
  pub body : Text
  pub hash : Text
  pub links : List Text

-- anchor
pub record Anchor : Type 0 where
  pub ref : Text
  pub quote : Text
  pub prefix : Text
  pub suffix : Text
  pub heading : Text

pub record PageProperty : Type 0 where
  pub id : Text
  pub source : Text
  pub hash : Text
  pub version : ℕ
  pub docz : Text
  pub repo : Text
  pub anchors : List Anchor

abbrev pub no_property : PageProperty
no_property = record {
  id = [];
  source = [];
  hash = [];
  version = 0;
  docz = [];
  repo = [];
  anchors = [];
}

pub data Action : Type 0 where
  none_yet created updated unchanged skipped archived broken : Action

pub record Edit : Type 0 where
  pub version : ℕ
  pub expected : ℕ

pub record Comments : Type 0 where
  pub kept : ℕ
  pub restored : List Text
  pub lost : List Text

abbrev pub no_comments : Comments
no_comments = record { kept = 0; restored = []; lost = [] }

pub record PageResult : Type 0 where
  pub id : Text
  pub key : Text
  pub title : Text
  pub source : Text
  pub action : Action
  pub page_id : Text
  pub url : Text
  pub version : ℕ
  pub hash : Text
  pub edited : Option Edit
  pub comments : Comments
  pub reason : Text
  pub links : List Text
  pub body : Text

-- The fields of ExportOptions, `space_id` of exportRun and `folder` of the plan; `folder_id` is
-- ExportOptions.Folder.
pub record Options : Type 0 where
  pub force : Bool
  pub overwrite : Bool
  pub dry_run : Bool
  pub repository : Text
  pub version : Text
  pub pages : Dict Text
  pub space_id : Text
  pub folder : Text
  pub folder_id : Text

abbrev pub property_key : Text
property_key = codes "docz"

abbrev pub parent_key : Text
parent_key = codes "docz:parent"

pub record Json : Type 0 where
  pub marshal : PageProperty → Text
  pub unmarshal : Text → Option PageProperty

-- collectMarkers, carryMarkers (the new body, the anchors placed and those lost) and wellFormed
pub record Markers : Type 0 where
  pub collect : Text → List Anchor
  pub carry : Text → List Anchor → Text × List Anchor × List Anchor
  pub well_formed : Text → Bool
