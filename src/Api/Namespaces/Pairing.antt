-- ===== src/Api/Namespaces/Pairing.antt =====
-- Subjects and their discussion sides after any run of the handlers of
-- crates/api/src/namespaces/routes.rs.
use thewiki.Prelude.{◌≡◌, refl, sym, subst, ℕ, List, [], ◌∷◌}
use thewiki.Prelude.Result.{ok, map_err, map_err-ok}
use thewiki.Prelude.Tests.{◌==◌}
use thewiki.Prelude.Text.{Text}
use thewiki.Core.Page.{Namespace}
use thewiki.Core.Permissions.{manage_namespaces}
use thewiki.Storage.Tables.{update_where}
use thewiki.Storage.Tables.Lookup.{Distinct-update}
use thewiki.Storage.Namespaces.{Rows, row_by_id, create, delete, update_display_name}
use thewiki.Storage.Namespaces.Pairs.{pair_of, pair_of-cons, Paired, delete-Paired}
use thewiki.Storage.Namespaces.Create.{create-Paired}
use thewiki.Api.Exec.{from_storage}
use thewiki.Api.Admin.{Actor, ensure, attempt-keeps}
use thewiki.Api.Namespaces.{
  Tables, found, parse_slug, get_by_slug, display_name_given, with_rows, subject_of,
  create_namespace, update_namespace, without_pages, delete_namespace,
}
use native.Mathlib.Omega.{arith}

abbrev named : Text → Namespace → Namespace
named display_name row = record row { display_name = display_name }

pair_of-named :
    (id : ℕ) (display_name : Text) (rows : Rows) (a : ℕ)
    → pair_of (update_where (λ n. n.id == id) (named display_name) rows) a ≡ pair_of rows a
pair_of-named id display_name [] a = refl
pair_of-named id display_name (row ∷ rows) a = ground (
  arith,
  pair_of-named id display_name rows a,
  pair_of-cons row rows a,
  pair_of-cons (named display_name row) (update_where (λ n. n.id == id) (named display_name) rows)
      a,
  pair_of-cons row (update_where (λ n. n.id == id) (named display_name) rows) a,
)

update_display_name-Paired :
    (id : ℕ) (display_name : Text) (rows out : Rows)
    → update_display_name id display_name rows ≡ ok out
    → Paired rows
    → Paired out
unfolding update_display_name
update_display_name-Paired id display_name rows out h w =
    let e : out ≡ update_where (λ n. n.id == id) (named display_name) rows = ground arith in
    subst Paired (sym e) (record {
      distinct = Distinct-update (λ n. n.id) (named display_name) id (λ n. refl) rows w.distinct;
      symmetric = λ a b p. ground (
        arith,
        pair_of-named id display_name rows a,
        pair_of-named id display_name rows b,
        w.symmetric a b,
      );
    })

-- A namespace that the handler makes is no discussion side and names no pair.
made-Paired :
    (talk_id id : ℕ) (slug display_name : Text) (rows out : Rows)
    → map_err from_storage (create talk_id (subject_of id slug display_name) rows) ≡ ok out
    → Paired rows
    → Paired out
made-Paired talk_id id slug display_name rows out h w =
    (create-Paired talk_id (subject_of id slug display_name) rows out refl refl
      (map_err-ok from_storage (create talk_id (subject_of id slug display_name) rows) out h) w).0

abbrev PairedTables : Tables → Type 0
PairedTables db = Paired db.namespaces

create_namespace-Paired :
    (actor : Actor) (id talk_id : ℕ) (slug display_name : Text) (db : Tables)
    → Paired db.namespaces
    → Paired (create_namespace actor id talk_id slug display_name db).1.namespaces
unfolding create_namespace
create_namespace-Paired actor id talk_id slug display_name db w =
    attempt-keeps PairedTables (ensure manage_namespaces actor) db _ w (λ _ _.
      attempt-keeps PairedTables (display_name_given display_name) db _ w (λ _ _.
        attempt-keeps PairedTables (parse_slug slug) db _ w (λ slug _.
          attempt-keeps PairedTables
            (map_err from_storage (create talk_id (subject_of id slug display_name) db.namespaces))
            db _ w
            (λ rows h.
              attempt-keeps PairedTables (found (row_by_id rows id)) (with_rows rows db) _
                (made-Paired talk_id id slug display_name db.namespaces rows h w)
                (λ namespace _. made-Paired talk_id id slug display_name db.namespaces rows h w)))))

update_namespace-Paired :
    (actor : Actor) (slug display_name : Text) (db : Tables)
    → Paired db.namespaces
    → Paired (update_namespace actor slug display_name db).1.namespaces
unfolding update_namespace
update_namespace-Paired actor slug display_name db w =
    attempt-keeps PairedTables (ensure manage_namespaces actor) db _ w (λ _ _.
      attempt-keeps PairedTables (display_name_given display_name) db _ w (λ _ _.
        attempt-keeps PairedTables (get_by_slug slug db) db _ w (λ namespace _.
          attempt-keeps PairedTables
            (map_err from_storage (update_display_name namespace.id display_name db.namespaces)) db
            _ w
            (λ rows h.
              update_display_name-Paired namespace.id display_name db.namespaces rows
                (map_err-ok from_storage
                  (update_display_name namespace.id display_name db.namespaces) rows h)
                w))))

delete_namespace-Paired :
    (actor : Actor) (slug : Text) (db : Tables)
    → Paired db.namespaces
    → Paired (delete_namespace actor slug db).1.namespaces
unfolding delete_namespace
delete_namespace-Paired actor slug db w =
    attempt-keeps PairedTables (ensure manage_namespaces actor) db _ w (λ _ _.
      attempt-keeps PairedTables (get_by_slug slug db) db _ w (λ namespace _.
        attempt-keeps PairedTables (without_pages namespace db) db _ w (λ _ _.
          attempt-keeps PairedTables
            (map_err from_storage (delete namespace.id db.pages db.namespaces)) db _ w
            (λ rows h.
              delete-Paired namespace.id db.pages db.namespaces rows
                (map_err-ok from_storage (delete namespace.id db.pages db.namespaces) rows h) w))))

-- The requests that change the table.
pub data NamespaceRequest : Type 0 where
  creates : (id talk_id : ℕ) (slug display_name : Text) → NamespaceRequest
  renames : (slug display_name : Text) → NamespaceRequest
  deletes : (slug : Text) → NamespaceRequest

abbrev pub serve : Actor → NamespaceRequest → Tables → Tables
serve actor (creates id talk_id slug display_name) db =
    (create_namespace actor id talk_id slug display_name db).1
serve actor (renames slug display_name) db = (update_namespace actor slug display_name db).1
serve actor (deletes slug) db = (delete_namespace actor slug db).1

abbrev pub serve_all : List (Actor × NamespaceRequest) → Tables → Tables
serve_all [] db = db
serve_all ((actor, request) ∷ requests) db = serve_all requests (serve actor request db)

serve-Paired :
    (actor : Actor) (request : NamespaceRequest) (db : Tables)
    → Paired db.namespaces
    → Paired (serve actor request db).namespaces
serve-Paired actor (creates id talk_id slug display_name) db w =
    create_namespace-Paired actor id talk_id slug display_name db w
serve-Paired actor (renames slug display_name) db w =
    update_namespace-Paired actor slug display_name db w
serve-Paired actor (deletes slug) db w = delete_namespace-Paired actor slug db w

-- If no id stands twice and the pairs go both ways, then this holds after every run of requests to create,
-- rename and delete namespaces, those that fail included.
pub serve_all-Paired :
    (requests : List (Actor × NamespaceRequest)) (db : Tables)
    → Paired db.namespaces
    → Paired (serve_all requests db).namespaces
serve_all-Paired [] db w = w
serve_all-Paired ((actor, request) ∷ requests) db w =
    serve_all-Paired requests (serve actor request db) (serve-Paired actor request db w)
