-- ===== src/Confluence/Client.antt =====
-- The surface that the export needs, of pkg/export/confluence/client.go. `S` is what a client acts
-- on. A call that reads gives its answer; one that writes gives its answer and the new state.
use docz.Prelude.{ℕ, ◌≡◌, refl, ap, Option, List}
use docz.Text.{Text}

pub data Kind : Type 0 where
  page_type folder_type : Kind

-- The errors of pkg/export/confluence/errors.go that a client gives, and the others of the export:
-- of the renderer, of a body that is not well-formed and of the configuration.
pub data ExportError : Type 0 where
  auth : Text → ℕ → ExportError
  request : Text → ℕ → ExportError
  title_taken : Text → Text → ExportError
  conflict : Text → ℕ → ExportError
  rendering ill_formed config : Text → ExportError

pub data Answer {ℓ} (A : Type ℓ) : Type ℓ where
  ok : A → Answer A
  failed : ExportError → Answer A

infixl 5 ◌>>=◌
abbrev pub ◌>>=◌ {ℓ κ} : {A : Type ℓ} {B : Type κ} → Answer A → (A → Answer B) → Answer B
ok a >>= f = f a
failed e >>= f = failed e

pub record Page : Type 0 where
  pub id : Text
  pub title : Text
  pub parent_id : Text
  pub space_id : Text
  pub version : ℕ
  pub web_url : Text

pub record Target : Type 0 where
  pub kind : Kind
  pub id : Text

abbrev pub page_target : Text → Target
page_target id = record { kind = page_type; id = id }

abbrev pub folder_target : Text → Target
folder_target id = record { kind = folder_type; id = id }

pub record Node : Type 0 where
  pub page : Page
  pub kind : Kind

pub record Folder : Type 0 where
  pub id : Text
  pub title : Text
  pub parent_id : Text
  pub space_id : Text
  pub web_url : Text

pub record NewFolder : Type 0 where
  pub space_id : Text
  pub parent_id : Text
  pub title : Text

pub record NewPage : Type 0 where
  pub space_id : Text
  pub parent_id : Text
  pub title : Text
  pub body : Text

-- A nil Body is `none`.
pub record PageUpdate : Type 0 where
  pub title : Text
  pub parent_id : Text
  pub body : Option Text
  pub version : ℕ
  pub message : Text

pub record Property : Type 0 where
  pub id : Text
  pub key : Text
  pub value : Text
  pub version : ℕ

pub record InlineComment : Type 0 where
  pub id : Text
  pub ref : Text

-- Client, with CommentLister as `inline_comments`, which is `none` for a client without it.
pub record Client (S : Type 0) : Type 0 where
  pub space_id : Text → S → Answer Text
  pub space_home : Text → S → Answer Text
  pub find_page : Text → Text → S → Answer (Option Page)
  pub page_by_id : Text → S → Answer (Option Page)
  pub body : Text → S → Answer (Option Text)
  pub create_page : NewPage → S → Answer Page × S
  pub update_page : Text → PageUpdate → S → Answer Page × S
  pub folder_by_id : Text → S → Answer (Option Folder)
  pub create_folder : NewFolder → S → Answer Folder × S
  pub property : Target → Text → S → Answer (Option Property)
  pub set_property : Target → Property → S → Answer (Unit {0}) × S
  pub children : Target → S → Answer (List Node)
  pub inline_comments : Option (Text → S → Answer (List InlineComment))

pub bind-eq_ok {ℓ κ} :
    {A : Type ℓ} {B : Type κ} (m : Answer A) (f : A → Answer B) {b : B}
    → (m >>= f) ≡ ok b
    → (a : A) × (m ≡ ok a) × (f a ≡ ok b)
bind-eq_ok (ok a) f h = (a, refl, h)
bind-eq_ok (failed e) f h = cc

abbrev pub value_or {ℓ} : {A : Type ℓ} → A → Answer A → A
value_or default (ok a) = a
value_or default (failed e) = default

pub ok-injective {ℓ} : {A : Type ℓ} (a b : A) → ok a ≡ ok b → a ≡ b
ok-injective a b h = ap (value_or a) h
