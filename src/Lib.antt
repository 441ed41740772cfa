-- ===== src/Lib.antt =====
-- A verification library for thewiki, the self-hosted wiki server of this repository.
--
-- Render/Template models crates/render/src/template.rs, the transclusion pass that runs before
-- Markdown parsing: Scan the brace scanners, Diagnostics positions and error spans, Frame the data
-- and the cache, Call one template call, Expand the loop and the entry point `expand`. Texts are
-- lists of code points (Prelude/Text); an offset counts characters where the source counts bytes.
-- `TemplateResolver` is a record parameter. Fuel counts nested calls of `expand_body`; the loops
-- themselves are structural.
--
-- Render/Slug models crates/render/src/slug.rs, the ids of headings: `slugify`, Shape what its ids look
-- like, Allocator the numbering of repeated ids.
--
-- Core models the domain types of crates/core/src: the validated strings (Validation, Username,
-- EmailAddress, NamespaceSlug, RoleName, Tag), Permissions, Protection, Page, Revision, PendingRevision. Ids are
-- numbers, times are seconds.
--
-- Storage models the sqlite backend, crates/storage/src/sqlite, on a record `Db` of tables:
-- Tables the statements on pages, revisions and the audit log, PageAudit the transaction of
-- page_audit.rs, Pagination the listings by cursors, Namespaces the pairs of namespace.rs, Categories
-- the tree of category.rs, Pending the approval queue, Relations what hangs on a page or a user,
-- Accounts users, sessions and roles, Blocklists the two lists of the blocklists, Tags the completion of
-- tag.rs, with the database's LIKE as a parameter. The keys and foreign keys are those of migrations. A statement gives an error or the new tables. The driver's
-- own failures (connections, times that do not format) are not modelled.
--
-- Api models the handlers of crates/api/src/pages and crates/api/src/pending_revisions. Exec holds
-- the errors and the state: the tables and what the search index is sent; each storage call is one
-- transaction, so an error keeps what was written before it. Editor holds the gates, Pages the
-- requests on pages, each a plan from reads alone and the writes that carry it out,
-- PendingRevisions the reviewers' requests, Workflow their sequences. The clock (one instant for a
-- request), the fresh ids, the Markdown parser's links and the blocklist's matches are parameters.
-- Auth models crates/api/src/auth: Auth itself the login, the session extractor and the logout, Register
-- the registration and Newcomer the login after it, Csrf the double-submit check, over the tables of Storage/Accounts (the sqlite
-- statements on users, sessions and roles). The password hasher, the captcha provider and Unicode's
-- lowercase are parameters; a cookie holds the session's id itself.
-- Admin models crates/api/src/admin: Flags permissions as text, Roles and Users the handlers of roles.rs
-- and users.rs, Replay and History the audit log as the history of who holds which role, Removal and
-- Revocation what is left of a user's permissions.
-- Blocklist models crates/api/src/blocklist and admin/blocklist.rs: the snapshot of the stored lists and
-- the layer that reads it, Handlers the changes, Sync them one after the other, Race two at once, over
-- the tables of Storage/Blocklists. The crates `ipnet` and `regex` are a parameter.
-- Namespaces models crates/api/src/namespaces: the handlers, Pairing what a run of them keeps.
-- Categories models crates/api/src/categories: the handlers on categories, WellFormed and Found what a run
-- of them keeps. The pages of a category or a tag are not listed.
-- Config models crates/api/src/config.rs: the sections, Defaults, Validate; Limits what it accepts.
-- RateLimit models crates/api/src/rate_limit: `peer_ip`, the address that a request is charged to, and
-- in Store the token buckets and the layer that charges them, over any numbers that obey the laws of
-- `f64` that it names.
-- The view that a response joins is read-only and is left out.
--
-- Not modelled: the Postgres and libSQL backends, which repeat the sqlite statements; the search index,
-- the Markdown parser, the sanitiser and the image codecs, which are other projects'; the web client,
-- the GraphQL surface, the command line and the telemetry, which call what is modelled; media,
-- watchlists, feeds and the read-only listings that Storage/Pagination does not hold.
pub mod Api
pub mod Core
pub mod Prelude
pub mod Render
pub mod Storage
