-- ===== src/Coordinator/EntryStore/Lookup.antt =====
-- Requests for entries by their ids, and the requests for a page that are refused.
use mathlib.Core.Option
use syncali.Prelude.{
  ◌≡◌, ◌∙◌, refl, sym, ap, String, true, false, none, some, List, [], ◌∷◌, map, arith, same, has,
  select_first, select_where, All, All-map, Bool-cases, inl, inr,
}
use syncali.Coordinator.Tables.{Tables, Entry}
use syncali.Coordinator.EntryStore.{
  EntryStateRow, to_entry_state_row, pick_rows, get_entry_states, read_entry_states, read_entry,
}

-- The entries of the ids, read one by one.
unfoldable pub read_each : Tables → List String → List EntryStateRow
unfolding read_entry
read_each t [] = []
read_each t (id ∷ ids) =
    let rest = read_each t ids in
    elim (read_entry t id) [ none ↦ rest | some e ↦ to_entry_state_row e ∷ rest ]

same_eq : (s t : String) → same s t ≡ true → s ≡ t
same_eq s t h = ground arith

false-true : false ≡ true → ⊥
false-true h = cc

find_row :
    (ids : List String) (id : String) (es : List Entry)
    → has ids id ≡ true
    → select_first
        (λ r. same r.entry_id id)
        (map to_entry_state_row (select_where (λ e. has ids e.entry_id) es))
      ≡ Option.map to_entry_state_row (select_first (λ e. same e.entry_id id) es)
unfolding select_first select_where
find_row ids id [] h = refl
find_row ids id (e ∷ es) h = elim (Bool-cases (has ids e.entry_id)) [
  | inl known ↦ rw known (ground (arith, find_row ids id es h))
  | inr other ↦
      let differs : same e.entry_id id ≡ false = elim (Bool-cases (same e.entry_id id)) [
        | inl equal ↦
            absurd (false-true (sym other ∙ ap (has ids) (same_eq e.entry_id id equal) ∙ h))
        | inr d ↦ d
      ] in
      rw (other, differs) (find_row ids id es h)
]

pick-each :
    (t : Tables) (asked ids : List String)
    → All (λ id. has asked id ≡ true) ids
    → pick_rows (read_entry_states t asked) ids ≡ read_each t ids
unfolding pick_rows read_each read_entry_states read_entry
pick-each t asked [] h = refl
pick-each t asked (id ∷ ids) h =
    ground (arith, find_row asked id t.entries h.0, pick-each t asked ids h.1)

has-All : (ids : List String) → All (λ id. has ids id ≡ true) ids
unfolding has
has-All [] = tt
has-All (id ∷ ids) = (ground arith, All-map ids (λ j h. ground arith) (has-All ids))

-- The answer to a request for several entries is that of reading them one by one, in the order of
-- the request; an id that has no entry is left out.
pub get_entry_states-each :
    (t : Tables) (ids : List String) → get_entry_states t ids ≡ read_each t ids
unfolding get_entry_states
get_entry_states-each t ids = pick-each t ids ids (has-All ids)
