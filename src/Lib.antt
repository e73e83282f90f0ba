-- ===== src/Lib.antt =====
-- docz: the engine that reads and edits the Markdown documents of a docz repository.
--
-- The program's parts, and how they interact:
--   pkg/doczcore/docparse reads a document line by line: the fences and comments that hide a line
--   (blocks.go), task items, list items, docz markers and the regions that they delimit, headings
--   with their anchor slugs, and tables. It knows nothing of files. pkg/doczcore/docwrite edits the
--   bytes of a document and asks docparse what a line is: a task line is flipped only where
--   docparse.TaskItems, run on that line, reports it. pkg/doczcore/toc and
--   pkg/doczcore/index replace the lines of a region that docparse finds by generated ones.
--   pkg/doczcore/config judges the paths and the access scopes of a repository's configuration;
--   internal/authorize grants the repositories whose scopes a principal holds.
--   pkg/export/confluence writes the documents as the pages of a Confluence space: each item of its
--   plan is decided against the page that is there, through the interface Client, which the in-memory
--   site of confluencetest fills. internal/oauth trades an authorization code, which it keeps in a
--   cache, for tokens.
--
-- Which file models which part:
--   Prelude      Booleans and lists over the native numbers, relations on pairs of a list, sorting.
--   Text         Go's strings and the functions of package strings, strconv.Itoa, replacement.
--   Docparse     Blocks (blocks.go), Markers and Regions (regions.go), TaskItems (taskitems.go),
--                ListItems (listitems.go), Inline and Headings (headings.go), Tables (tables.go),
--                Title (title.go). A child module holds the proofs about its parent.
--   Docwrite     CheckTask and Status (the byte cores of checktask.go and status.go).
--   Toc, Index   toc.go, update.go (Report) and index.go.
--   Config       Paths (paths.go) and Access (access.go).
--   Authorize    Scopes and Cache (scopes.go): the scopes of a person, the operations of the authorizer,
--                and requests as steps of a relation.
--   Confluence   pkg/export/confluence: Client (client.go, errors.go), Pages, Outcome, Decide and
--                Reconcile (reconcile.go and the types of export.go and plan.go), Run with Folders,
--                Orphans and Export (export.go, folder.go, orphans.go), Site with Writes
--                (confluencetest/site.go), and Laws, what a client owes the export. Their other
--                child modules hold proofs.
--   Oauth        internal/oauth: Cache (MemoryCache of cache.go, and its calls interleaved in Race), Scopes
--                (authorize.go, server.go, token.go), Token and Refresh (redeemCode and refresh of token.go).
--   Tests        The concrete inputs.
--
-- How state and operations correspond: a definition has the name of its Go function in lower case
-- (regions for Regions, set_task_state_bytes for SetTaskStateBytes). A loop with mutable locals is a
-- function on a list whose first arguments are those locals; a loop that consumes a line consumes the
-- list of lines. A struct is a record, a sentinel error a constructor. A Text is the list of code
-- points of a string that is valid UTF-8, and a character that the code looks for is ASCII, so that
-- an offset of the code is the text in front of it and the text behind it.
--
-- Parameters: the Unicode tables that package unicode consults (record Unicode of Docparse.Inline,
-- the category Cf of Config.Paths, strings.ToLower of Config.Access), the answers of the
-- database and the outcomes of os.WriteFile; for the export the client, the renderer,
-- encoding/json on the stored properties, the comment markers in a body (comments.go,
-- wellformed.go), and what Error() says; for the grants the hashes, the random secrets, the tables of
-- refresh tokens and users, and the signer. A client is a record over a type of states: a call that
-- reads gives an answer, one that writes an answer and the next state.
-- Regular expressions are hand-written recognisers of the same language.
--
-- Bounds and fuel: the loop of uniqueSlug runs on the number of slugs taken, plus two, since every
-- round but the last meets another taken slug; the loops of the inline reader run on the length of
-- the text, which each round shortens. Numbers are line numbers and depths, below the length of the
-- document, and no machine integer overflows.
--
-- Not modelled: reading and writing of files, the command line, the HTTP server and its database,
-- the GitHub client, the templates; text that is not valid UTF-8; of the export how its plan is
-- built (plan.go), its rendering, a cancelled context and the hooks. A request with no session or no
-- scopes, which ScopeAuthorizer answers with the empty set and without the cache, is no step of
-- Authorize.Cache. A conflict of the site has one less than the wanted version, which for a wanted
-- version of 0 is -1 in Go and 0 here.
pub mod Prelude
pub mod Text
pub mod Docparse
pub mod Docwrite
pub mod Config
pub mod Toc
pub mod Index
pub mod Authorize
pub mod Confluence
pub mod Oauth
mod Tests
