-- ===== src/Engine/PullPlan/Deferral.antt =====
-- The loop that puts entries off whose path belongs to an entry outside the pull: putting one off
-- may leave another without its path, so the loop runs until nothing changes.
use syncali.Prelude.{
  ℕ, zero, suc, ◌<◌, ◌≤◌, ◌≡◌, ◌≢◌, refl, ap, ◌∙◌, String, Option, none, some, is_some, truthy,
  Bool, true, false, not, ◌||◌, List, [], ◌∷◌, length, arith, All, same, text_dec, has,
  if◌then◌else◌, Bool-cases, inl, inr,
}
use syncali.MutationQueue.{PendingMutationRow}
use syncali.Engine.PullPlan.{
  PullEntryStateManifestItem, SyncedEntryMetadata, PullManifestStore, AdoptedLocalEntry, id_of,
  ids_where, path_owner,
}
use syncali.Engine.PullPlan.Owner.{path_owner-total}

-- What the two throws of the planner, and the one on a path, ask of an item.
pub record IsWellFormed (item : PullEntryStateManifestItem) : Type 0 where
  pub named : is_some (truthy (some (id_of item))) ≡ true
  pub placed : item.state.deleted ≡ false → item.metadata.path ≢ []
  pub filled :
      item.state.deleted ≡ false
      → (is_some (truthy item.state.blob_id) ≡ true) × (is_some (truthy item.metadata.hash) ≡ true)
  pub emptied : item.state.deleted ≡ true → item.metadata.hash ≡ none

module _ (store : PullManifestStore)
    (decrypt : PendingMutationRow → Option SyncedEntryMetadata) where
  abbrev is_external : Option (Option AdoptedLocalEntry × Bool) → Option Bool
  is_external none = none
  is_external (some (adopted, external)) = some external

  abbrev judge_content :
      PullEntryStateManifestItem → List String → Option String → Option String → Option Bool
  judge_content item present none hash = none
  judge_content item present (some blob_id) none = none
  judge_content item present (some blob_id) (some hash) =
      is_external (path_owner store decrypt item.state item.metadata hash present)

  -- Whether the body of the inner loop puts an item off.
  unfoldable pub judge_item : List String → List String → PullEntryStateManifestItem → Option Bool
  judge_item present deferred item =
      if has deferred (id_of item) || item.state.deleted
      then some false
      else judge_content item present (truthy item.state.blob_id) (truthy item.metadata.hash)

  unfoldable pub defer_pass :
      List String
      → List String
      → Bool
      → List PullEntryStateManifestItem
      → Option (List String × Bool)
  defer_pass present deferred changed [] = some (deferred, changed)
  defer_pass present deferred changed (item ∷ items) = elim (judge_item present deferred item) [
    | none ↦ none
    | some true ↦ defer_pass present (id_of item ∷ deferred) true items
    | some false ↦ defer_pass present deferred changed items
  ]

  -- `while (changed)`.
  unfoldable pub defer_loop :
      ℕ → List PullEntryStateManifestItem → List String → Option (List String)
  defer_loop zero items deferred = none
  defer_loop (suc rounds) items deferred =
      let present = ids_where (λ item. not (has deferred (id_of item))) items in
      elim (defer_pass present deferred false items) [
        | none ↦ none
        | some (more, true) ↦ defer_loop rounds items more
        | some (same_ids, false) ↦ some same_ids
      ]

  -- Every round but the last puts an entry off, so these are rounds enough.
  unfoldable pub deferred_entry_ids : Bool → List PullEntryStateManifestItem → Option (List String)
  unfolding defer_loop
  deferred_entry_ids false items = some []
  deferred_entry_ids true items = defer_loop (suc (length items)) items []

  judge_content-total :
      ((pending : PendingMutationRow) → decrypt pending ≢ none)
      → (item : PullEntryStateManifestItem) (present : List String) (blob hash : Option String)
      → is_some blob ≡ true
      → is_some hash ≡ true
      → (b : Bool) × (judge_content item present blob hash ≡ some b)
  judge_content-total decrypts item present none hash h k = cc
  judge_content-total decrypts item present (some blob) none h k = cc
  judge_content-total decrypts item present (some blob) (some hash) h k =
      let ((adopted, external), e) =
        path_owner-total store decrypt decrypts item.state item.metadata hash present in
      (external, ap is_external e)

  judge_item-total :
      ((pending : PendingMutationRow) → decrypt pending ≢ none)
      → (item : PullEntryStateManifestItem) (present deferred : List String) → IsWellFormed item
      → (b : Bool) × (judge_item present deferred item ≡ some b)
        × (b ≡ true → has deferred (id_of item) ≡ false)
  unfolding judge_item
  judge_item-total decrypts item present deferred v =
      elim (Bool-cases (has deferred (id_of item) || item.state.deleted)) [
        | inl skipped ↦ (false, rw skipped refl, λ h. absurd (cc))
        | inr judged ↦
            let filled = v.filled (ground arith) in
            let (b, e) =
              judge_content-total decrypts item present (truthy item.state.blob_id)
                (truthy item.metadata.hash) filled.0 filled.1 in
            (b, rw judged e, λ h. ground arith)
      ]

-- How many items are not put off.
fresh : List String → List PullEntryStateManifestItem → ℕ
fresh deferred [] = 0
fresh deferred (item ∷ items) =
    let rest = fresh deferred items in if has deferred (id_of item) then rest else suc rest

fresh-cons-le :
    (id : String) (deferred : List String) (items : List PullEntryStateManifestItem)
    → fresh (id ∷ deferred) items ≤ fresh deferred items
unfolding fresh has
fresh-cons-le id deferred [] = omega arith
fresh-cons-le id deferred (item ∷ items) = ground (arith, fresh-cons-le id deferred items)

abbrev holds : List PullEntryStateManifestItem → String → Bool
holds [] id = false
holds (item ∷ items) id = same (id_of item) id || holds items id

fresh-cons-lt :
    (id : String) (deferred : List String) (items : List PullEntryStateManifestItem)
    → has deferred id ≡ false
    → holds items id ≡ true
    → fresh (id ∷ deferred) items < fresh deferred items
unfolding fresh has
fresh-cons-lt id deferred [] h k = cc
fresh-cons-lt id deferred (item ∷ items) h k = elim (text_dec (id_of item) id) [
  | yes here ↦ ground (arith, fresh-cons-le id deferred items)
  | no elsewhere ↦ ground (arith, fresh-cons-lt id deferred items)
]

fresh-length : (items : List PullEntryStateManifestItem) → fresh [] items ≤ length items
unfolding fresh has
fresh-length [] = omega arith
fresh-length (item ∷ items) = ground (arith, fresh-length items)

abbrev Passed : Bool → List PullEntryStateManifestItem → List String → List String → Bool → Type 0
Passed changed whole before more changed' =
    (fresh more whole ≤ fresh before whole)
    × (changed ≡ false → changed' ≡ true → fresh more whole < fresh before whole)

module _ (store : PullManifestStore) (decrypt : PendingMutationRow → Option SyncedEntryMetadata)
    (decrypts : (pending : PendingMutationRow) → decrypt pending ≢ none)
    (whole : List PullEntryStateManifestItem) (present : List String) where
  defer_pass-total :
      (items : List PullEntryStateManifestItem) (deferred : List String) (changed : Bool)
      → All IsWellFormed items
      → ((id : String) → holds items id ≡ true → holds whole id ≡ true)
      → (more : List String) × (changed' : Bool) × (defer_pass store decrypt present deferred
            changed items
          ≡ some (more, changed'))
        × Passed changed whole deferred more changed'
  unfolding defer_pass
  defer_pass-total [] deferred changed v inside =
      (deferred, changed, refl, (omega arith, λ h k. cc))
  defer_pass-total (item ∷ items) deferred changed v inside =
      let rest : (id : String) → holds items id ≡ true → holds whole id ≡ true =
        λ id h. inside id (ground arith) in
      let (b, e, new) = judge_item-total store decrypt decrypts item present deferred v.0 in
      elim (Bool-cases b) [
        | inl off ↦
            let (more, changed', passed, (le, lt)) =
              defer_pass-total items (id_of item ∷ deferred) true v.1 rest in
            let less =
              fresh-cons-lt (id_of item) deferred whole (new off)
                (inside (id_of item) (ground arith)) in
            (
              more,
              changed',
              rw (e ∙ ap some off, defer_pass) passed,
              (omega arith, λ h k. omega arith),
            )
        | inr stays ↦
            let (more, changed', passed, (le, lt)) =
              defer_pass-total items deferred changed v.1 rest in
            (more, changed', rw (e ∙ ap some stays, defer_pass) passed, (le, lt))
      ]

module _ (store : PullManifestStore) (decrypt : PendingMutationRow → Option SyncedEntryMetadata)
    (decrypts : (pending : PendingMutationRow) → decrypt pending ≢ none)
    (whole : List PullEntryStateManifestItem) (v : All IsWellFormed whole) where
  defer_loop-total :
      (rounds : ℕ) (deferred : List String)
      → fresh deferred whole < rounds
      → (ids : List String) × (defer_loop store decrypt rounds whole deferred ≡ some ids)
  unfolding defer_loop
  defer_loop-total zero deferred h = elim h [ ]
  defer_loop-total (suc rounds) deferred h =
      let present = ids_where (λ item. not (has deferred (id_of item))) whole in
      let (more, changed, e, (le, lt)) =
        defer_pass-total store decrypt decrypts whole present whole deferred false v (λ id k. k) in
      elim (Bool-cases changed) [
        | inl again ↦
            let (ids, found) =
              defer_loop-total rounds more (let less = lt refl again in omega arith) in
            (ids, rw (e ∙ ap (λ b. some (more, b)) again, defer_loop) found)
        | inr done ↦ (more, rw (e ∙ ap (λ b. some (more, b)) done, defer_loop) refl)
      ]

  -- The deferral ends, with rounds to spare.
  pub deferred_entry_ids-total :
      (put_off : Bool)
      → (ids : List String) × (deferred_entry_ids store decrypt put_off whole ≡ some ids)
  unfolding deferred_entry_ids
  deferred_entry_ids-total false = ([], refl)
  deferred_entry_ids-total true =
      defer_loop-total (suc (length whole)) [] (omega (arith, fresh-length whole))
