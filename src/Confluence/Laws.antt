-- ===== src/Confluence/Laws.antt =====
-- What the export relies on of a client of pkg/export/confluence/client.go: after a write that
-- succeeded, the reads give what was written.
use docz.Prelude.{◌<◌, true, false, ◌≡◌, ◌⊎◌, some, if◌then◌else◌, is_empty}
use docz.Text.{Text, equal}
use docz.Confluence.Client.{ok, Page, Target, page_target, NewPage, PageUpdate, Property, Client}

module _ {S : Type 0} (c : Client S) (IsValid : S → Type 0) where
  -- The reads of pages behind a write of `page`.
  pub record Shows (space : Text) (s : S) (page : Page) (s' : S) : Type 0 where
    pub valid : IsValid s'
    pub by_id :
        (id : Text)
        → c.page_by_id id s' ≡ (if equal id page.id then ok (some page) else c.page_by_id id s)
    pub by_title : c.find_page space page.title s' ≡ ok (some page)
    pub in_space : page.space_id ≡ space

  pub record IsCreated (p : NewPage) (s : S) (page : Page) (s' : S) : Type 0 where
    pub shows : Shows p.space_id s page s'
    pub has_title : page.title ≡ p.title
    pub has_parent : page.parent_id ≡ p.parent_id ⊎ is_empty p.parent_id ≡ true
    pub has_version : 0 < page.version

  pub record IsUpdated (u : PageUpdate) (old : Page) (s : S) (page : Page) (s' : S) : Type 0 where
    pub shows : Shows old.space_id s page s'
    pub same_id : page.id ≡ old.id
    pub has_title : page.title ≡ u.title
    pub has_parent : page.parent_id ≡ (if is_empty u.parent_id then old.parent_id else u.parent_id)
    pub has_version : page.version ≡ u.version

  pub record IsStored (t : Target) (p : Property) (s s' : S) : Type 0 where
    pub valid : IsValid s'
    pub stored : Property
    pub read : c.property t p.key s' ≡ ok (some stored)
    pub has_value : stored.value ≡ p.value
    pub by_id : (id : Text) → c.page_by_id id s' ≡ c.page_by_id id s
    pub by_title : (space title : Text) → c.find_page space title s' ≡ c.find_page space title s

  pub record IsStore : Type 0 where
    pub id_read :
        (id : Text) (s : S) (page : Page)
        → IsValid s
        → c.page_by_id id s ≡ ok (some page)
        → page.id ≡ id
    pub title_read :
        (space title : Text) (s : S) (page : Page)
        → IsValid s
        → c.find_page space title s ≡ ok (some page)
        → (c.page_by_id page.id s ≡ ok (some page)) × (page.space_id ≡ space) × (page.title ≡ title)
    pub create :
        (p : NewPage) (s : S) (page : Page) (s' : S)
        → IsValid s
        → c.create_page p s ≡ (ok page, s')
        → IsCreated p s page s'
    pub update :
        (u : PageUpdate) (body : Text) (old : Page) (s : S) (page : Page) (s' : S)
        → IsValid s
        → c.page_by_id old.id s ≡ ok (some old)
        → u.body ≡ some body
        → is_empty u.title ≡ false
        → c.update_page old.id u s ≡ (ok page, s')
        → IsUpdated u old s page s'
    pub set :
        (id : Text) (page : Page) (p : Property) (s s' : S)
        → IsValid s
        → c.page_by_id id s ≡ ok (some page)
        → c.set_property (page_target id) p s ≡ (ok tt, s')
        → IsStored (page_target id) p s s'
