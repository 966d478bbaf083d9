-- ===== src/Service/Activity/Pages.antt =====
-- internal/service/change.go: the pages of `listAll`.
use go_prod_change_registry.Prelude.{
  ℕ, zero, suc, ◌+◌, ◌-◌, ◌≤◌, ◌<◌, Bool, true, false, ◌||◌, List, [], ◌∷◌, ◌++◌, map, some, length,
  take, drop, is_empty, leb, ◌≡◌, refl, sym, ap, ◌∙◌, arith, Bool-cases, inl, inr, append_assoc,
  filter, length-filter, all,
}
use go_prod_change_registry.Prelude.Pages.{
  take-append_rest, drop-drop, length-drop, take_last, not_empty,
}
use go_prod_change_registry.Prelude.Int.{pos}
use go_prod_change_registry.Sort.{sort_by, length-sort_by}
use go_prod_change_registry.Model.{ChangeEvent, ListParams, ListResult, max_limit, effective_limit}
use go_prod_change_registry.Errors.{ok}
use go_prod_change_registry.Store.Tables.{EventRow, Tables}
use go_prod_change_registry.Store.Scan.{scan_event, with_related}
use go_prod_change_registry.Store.Scan.Batch.{scan_rows-with_related}
use go_prod_change_registry.Store.Query as Query
use go_prod_change_registry.Dict.Laws.{IsMap}
use go_prod_change_registry.Store.Tables.Invariant.{IsValid}
use go_prod_change_registry.Store.Query.Where.{selects, matching-selects}
use go_prod_change_registry.Store.Query.{holds, build_where_clause, matching, row_before}
use go_prod_change_registry.Service.Operation.{list_events}
use go_prod_change_registry.Service.Activity.{list_pages, list_all, is_last}

module _ (p : ListParams) (db : Tables) where
  -- Every selected row in the order of the query, as events.
  abbrev pub selected : List EventRow
  selected = sort_by row_before (matching p db)

  abbrev pub events_of : List EventRow → List ChangeEvent
  events_of rows = map (λ r. with_related db (scan_event r)) rows

  abbrev page_at : ℕ → ListParams
  page_at k = record p { limit = max_limit; offset = pos k }

  abbrev result_at : ℕ → ListResult
  result_at k = record {
    events = events_of (take 200 (drop k selected));
    total_count = length selected;
    limit = max_limit;
    offset = pos k;
  }

  list_events-page_at : (k : ℕ) → list_events (page_at k) db ≡ ok (result_at k)
  unfolding list_events Query.list effective_limit matching
  list_events-page_at k = rw (scan_rows-with_related db, length-sort_by row_before) (ground arith)

  result_at-events : (k : ℕ) → length (result_at k).events ≡ length (take 200 (drop k selected))
  result_at-events k = length-map (take 200 (drop k selected))
    where
      length-map : (rows : List EventRow) → length (events_of rows) ≡ length rows
      length-map [] = refl
      length-map (r ∷ rows) = ap suc (length-map rows)

  events_of-append :
      (rows more : List EventRow) → events_of (rows ++ more) ≡ events_of rows ++ events_of more
  events_of-append [] more = refl
  events_of-append (r ∷ rows) more =
      ap (λ x. with_related db (scan_event r) ∷ x) (events_of-append rows more)

  is_empty-events_of : (rows : List EventRow) → is_empty (events_of rows) ≡ is_empty rows
  is_empty-events_of [] = refl
  is_empty-events_of (r ∷ rows) = refl

  -- The loop's test asks for nothing but the page's length and the rows behind it.
  is_last-result_at :
      (k : ℕ)
      → is_last (page_at k) (result_at k) ≡ (
          is_empty (take 200 (drop k selected))
          || leb (length (drop k selected)) (length (take 200 (drop k selected))))
  is_last-result_at k =
      rw
        (
          is_empty-events_of (take 200 (drop k selected)),
          result_at-events k,
          length-drop k selected,
        )
        (ap (λ b. is_empty (take 200 (drop k selected)) || b)
          (leb-sub (length selected) k (length (take 200 (drop k selected)))))
    where
      leb-sub : (total k n : ℕ) → leb (total + 0) (k + n + 0) ≡ leb (total - k) n
      leb-sub total k n = ground arith

  -- The page that ends the loop is the rest, and any other page is not empty.
  last_page :
      (k : ℕ)
      → is_last (page_at k) (result_at k) ≡ true
      → (result_at k).events ≡ events_of (drop k selected)
  last_page k h = ap events_of (take_last 199 (drop k selected) (sym (is_last-result_at k) ∙ h))

  page_not_empty :
      (k : ℕ) → is_last (page_at k) (result_at k) ≡ false → 0 < length (result_at k).events
  page_not_empty k h = not_empty (result_at k).events (first_false _ h)
    where
      first_false : {a : Bool} (b : Bool) → (a || b) ≡ false → a ≡ false
      first_false b h = ground arith

  page_within :
      (k : ℕ)
      → is_last (page_at k) (result_at k) ≡ false
      → k + length (result_at k).events < length selected
  page_within k h = second_false _ h
    where
      second_false : (a : Bool) {total n : ℕ} → (a || leb (total + 0) (n + 0)) ≡ false → n < total
      second_false a h = ground arith

  page_and_rest :
      (k : ℕ)
      → (result_at k).events ++ events_of (drop (k + length (result_at k).events) selected)
        ≡ events_of (drop k selected)
  page_and_rest k =
      ap (λ n. (result_at k).events ++ events_of (drop (k + n) selected)) (result_at-events k)
      ∙ ap (λ rows. (result_at k).events ++ events_of rows)
          (sym (drop-drop k (length (take 200 (drop k selected))) selected))
      ∙ sym (events_of-append (take 200 (drop k selected)) _)
      ∙ ap events_of (take-append_rest 200 (drop k selected))

  list_pages_lem :
      (fuel k : ℕ) (events : List ChangeEvent)
      → k ≤ length selected
      → length selected < fuel + k
      → list_pages fuel (page_at k) events db ≡ some (ok (events ++ events_of (drop k selected)))
  unfolding list_pages
  list_pages_lem zero k events within enough = ground arith
  list_pages_lem (suc fuel) k events within enough =
      elim (Bool-cases (is_last (page_at k) (result_at k))) [
        | inl last ↦
            rw (list_pages, list_events-page_at k, last)
              (ap (λ x. some (ok (events ++ x))) (last_page k last))
        | inr more ↦
            let n = length (result_at k).events in
            rw (list_pages, list_events-page_at k, more)
              (list_pages_lem fuel (k + n) (events ++ (result_at k).events)
                  (omega (arith, page_within k more)) (omega (arith, page_not_empty k more))
                ∙ ap (λ x. some (ok x))
                    (append_assoc events (result_at k).events (events_of (drop (k + n) selected))
                      ∙ ap (λ x. events ++ x) (page_and_rest k)))
      ]

  selected_within : length selected ≤ length db.events
  unfolding matching
  selected_within = rw (length-sort_by row_before) (
      length-filter
        (λ (r : EventRow).
          all (holds db (build_where_clause p).args r) (build_where_clause p).clauses)
        db.events)

  list_all_pages : p.offset ≡ pos 0 → list_all p db ≡ some (ok (events_of selected))
  unfolding list_all
  list_all_pages first =
      ap
        (λ o.
          list_pages (suc (length db.events)) (record p { limit = max_limit; offset = o }) [] db)
        first
      ∙ list_pages_lem (suc (length db.events)) 0 [] (omega arith) (omega (arith, selected_within))

-- For valid tables, and parameters that start at the first row and whose tags are a map, `listAll`
-- ends within its fuel, and its pages together are every row that passes the filter, each once, the
-- latest time first and by id within one time, with the row's own tags and links.
pub list_all_lem :
    (p : ListParams) (db : Tables)
    → IsValid db
    → IsMap p.tags
    → p.offset ≡ pos 0
    → list_all p db
      ≡ some (ok (events_of p db (sort_by row_before (filter (λ r. selects db r p) db.events))))
list_all_lem p db v m first =
    list_all_pages p db first
    ∙ ap (λ rows. some (ok (events_of p db (sort_by row_before rows)))) (matching-selects p db v m)
