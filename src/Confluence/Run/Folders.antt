-- ===== src/Confluence/Run/Folders.antt =====
-- The repository's folder: pkg/export/confluence/folder.go. encoding/json on a folderProperty is a
-- parameter.
use docz.Prelude.{
  Bool, true, false, ◌&&◌, Option, none, some, List, [], ◌∷◌, ◌++◌, if◌then◌else◌, is_empty,
}
use docz.Text.{Text, codes, equal}
use docz.Confluence.Client.{
  Kind, page_type, folder_type, ExportError, title_taken, config, Answer, ok, failed, ◌>>=◌, Page,
  Node, Folder, page_target, folder_target, Property, Client,
}
use docz.Confluence.Reconcile.{Options, property_key}
use docz.Confluence.Run.{Plan, Run}

pub record FolderProperty : Type 0 where
  pub repo : Text
  pub docz : Text

pub record FolderJson : Type 0 where
  pub marshal : FolderProperty → Text
  pub unmarshal : Text → Option FolderProperty

-- Node
unfoldable pub node_of : Folder → Node
node_of f = record {
  page = record {
    id = f.id;
    title = f.title;
    parent_id = f.parent_id;
    space_id = f.space_id;
    version = 0;
    web_url = f.web_url;
  };
  kind = folder_type;
}

-- useFolder
unfoldable pub use_folder : Folder → Run → Run
use_folder f run = record run { folder_id = f.id; folder = some (node_of f) }

-- %q of a text in which it escapes nothing
abbrev pub quoted : Text → Text
quoted t = codes "\"" ++ (t ++ codes "\"")

abbrev pub is_folder : Kind → Bool
is_folder page_type = false
is_folder folder_type = true

-- The loop of findFolder.
unfoldable pub folder_named : Text → Text → List Node → Option Folder
folder_named space title [] = none
folder_named space title (c ∷ cs) =
    if is_folder c.kind && equal c.page.title title
    then some (record {
      id = c.page.id;
      title = c.page.title;
      parent_id = c.page.parent_id;
      space_id = space;
      web_url = c.page.web_url;
    })
    else folder_named space title cs

module _ {S : Type 0} (client : Client S) (json : FolderJson) (opts : Options) (plan : Plan) where
  abbrev named_parent : Option Page → Answer Text
  named_parent (some page) = ok page.id
  named_parent none = failed (
      config (
        codes "sync.confluence.parent "
        ++ (quoted plan.parent_title ++ (codes " is not a page in space " ++ plan.space))))

  -- folderParent
  unfoldable pub folder_parent : S → Answer Text
  folder_parent s =
      if is_empty plan.parent_title
      then client.space_home opts.space_id s
      else client.find_page opts.space_id plan.parent_title s >>= named_parent

  abbrev pub folder_under : Text → S → Answer (Option Folder)
  folder_under container s =
      if is_empty container
      then ok none
      else client.children (page_target container) s >>= λ cs.
          ok (folder_named opts.space_id plan.folder cs)

  abbrev pub folder_by_title : S → Answer (Option Folder)
  folder_by_title s = folder_parent s >>= λ container. folder_under container s

  abbrev pub or_folder_by_title : Option Folder → S → Answer (Option Folder)
  or_folder_by_title none s = folder_by_title s
  or_folder_by_title (some f) s =
      if equal f.space_id opts.space_id then ok (some f) else folder_by_title s

  -- findFolder
  unfoldable pub find_folder : S → Answer (Option Folder)
  find_folder s =
      if is_empty opts.folder_id
      then folder_by_title s
      else client.folder_by_id opts.folder_id s >>= λ f. or_folder_by_title f s

  -- The error of CreateFolder, with a TitleError as a ConfigError.
  abbrev creation_error : ExportError → ExportError
  creation_error (title_taken title id) = config (
      codes "folder title "
      ++ (quoted plan.folder
          ++ (codes " is taken elsewhere in space "
              ++ (plan.space ++ codes "; set sync.confluence.folder to another"))))
  creation_error e = e

  abbrev folder_property : Property
  folder_property = record {
    id = [];
    key = property_key;
    value = json.marshal (record { repo = opts.repository; docz = opts.version });
    version = 0;
  }

  abbrev pub property_written : Folder → Run → Answer (Unit {0}) × S → Answer Run × S
  property_written f run (ok _, s) = (ok (use_folder f run), s)
  property_written f run (failed e, s) = (failed e, s)

  abbrev pub folder_made : Run → Answer Folder × S → Answer Run × S
  folder_made run (failed e, s) = (failed (creation_error e), s)
  folder_made run (ok f, s) =
      property_written f run (client.set_property (folder_target f.id) folder_property s)

  abbrev pub created_under : Run → Answer Text → S → Answer Run × S
  created_under run (failed e) s = (failed e, s)
  created_under run (ok parent_id) s = folder_made run (
      client.create_folder
        (record { space_id = opts.space_id; parent_id = parent_id; title = plan.folder }) s)

  -- createFolder
  unfoldable pub create_folder : Run → S → Answer Run × S
  create_folder run s =
      if opts.dry_run
      then (ok run, s)
      else created_under run (if is_empty plan.parent_title then ok [] else folder_parent s) s

  -- The property that is there and can be read.
  abbrev pub read_folder_property : Option Property → Option FolderProperty
  read_folder_property none = none
  read_folder_property (some p) = json.unmarshal p.value

  -- The owner that the refusal names.
  abbrev owner_of : Option FolderProperty → Text
  owner_of none = codes "no docz export"
  owner_of (some p) = if is_empty p.repo then codes "no docz export" else p.repo

  abbrev pub is_ours : Option FolderProperty → Bool
  is_ours none = false
  is_ours (some p) = equal p.repo opts.repository

  abbrev pub belongs_to : Folder → Option FolderProperty → ExportError
  belongs_to f p = config (
      codes "folder "
      ++ (quoted f.title
          ++ (codes " in space "
              ++ (plan.space
                  ++ (codes " belongs to "
                      ++ (owner_of p
                          ++ codes
                              "; set sync.confluence.folder to a title of this repository's own"))))))

  abbrev pub checked_folder : Folder → Run → Option FolderProperty → Answer Run
  checked_folder f run p = if is_ours p then ok (use_folder f run) else failed (belongs_to f p)

  abbrev pub folder_found : Run → Answer (Option Folder) → S → Answer Run × S
  folder_found run (failed e) s = (failed e, s)
  folder_found run (ok none) s = create_folder run s
  folder_found run (ok (some f)) s = (
    client.property (folder_target f.id) property_key s >>= λ p.
        checked_folder f run (read_folder_property p),
    s,
  )

  -- resolveFolder
  unfoldable pub resolve_folder : Run → S → Answer Run × S
  resolve_folder run s = folder_found run (find_folder s) s
