-- ===== src/Coordinator/History/Answers.antt =====
-- Every restore of a batch gets the answer to its own mutation.
use syncali.Prelude.{
  ℕ, suc, ◌≡◌, ◌∙◌, refl, ap, subst, String, some, List, [], ◌∷◌, ◌++◌, map, length, length-append,
  arith, ◌⊎◌, inl, inr,
}
use mathlib.Core.List.{append_assoc}
use syncali.Coordinator.Tables.{Tables, ok}
use syncali.Coordinator.CursorStore.{read_version_history_retention_days}
use syncali.Coordinator.MutationStore.Model.{BatchResult}
use syncali.Coordinator.MutationStore.{CommitMutationsResult}
use syncali.Coordinator.BlobSync.{BlobSync, tables_of}
use syncali.Coordinator.CommitService.{CommitCall, commit_mutations_request}
use syncali.Coordinator.History.Service.{
  Reply, fails, replies, HistoryError, retention_start, Restore, check_restore, restoring,
  mutation_of,
}
use syncali.Coordinator.History.Batch.{
  RestoreResult, refused, commit_pending, Pending, prepare, answer_of, get_elem?, set_at, place,
  restore_entry_versions, commit_restores,
}

-- The answers, read off the restores in order: a restore that is refused takes no result of the
-- commit, and each of the others takes the next one.
unfoldable pub answer_each : Tables → ℕ → List Restore → List BatchResult → List RestoreResult
unfolding check_restore
answer_each t start [] bs = []
answer_each t start (r ∷ rs) [] = elim (check_restore t start r) [
  | fails e ↦ refused r.entry_id r.version_id e ∷ answer_each t start rs []
  | replies from ↦ commit_pending r.entry_id r.version_id ∷ answer_each t start rs []
]
answer_each t start (r ∷ rs) (b ∷ bs) =
    let skipped = answer_each t start rs (b ∷ bs) in
    let onward = answer_each t start rs bs in
    elim (check_restore t start r) [
      | fails e ↦ refused r.entry_id r.version_id e ∷ skipped
      | replies from ↦ answer_of r from b ∷ onward
    ]

get_elem-middle :
    {A : Type 0} (front : List A) (x : A) (back : List A)
    → get_elem? (front ++ x ∷ back) (length front) ≡ some x
unfolding get_elem?
get_elem-middle [] x back = refl
get_elem-middle (y ∷ front) x back = get_elem-middle front x back

set_at-middle :
    {A : Type 0} (front : List A) (x y : A) (back : List A)
    → set_at (length front) x (front ++ y ∷ back) ≡ front ++ x ∷ back
unfolding set_at
set_at-middle [] x y back = refl
set_at-middle (z ∷ front) x y back = ap (λ xs. z ∷ xs) (set_at-middle front x y back)

Reply-cases {ℓ} :
    {A : Type ℓ} (o : Reply A) → ((e : HistoryError) × (o ≡ fails e)) ⊎ ((a : A) × (o ≡ replies a))
Reply-cases (fails e) = inl (e, refl)
Reply-cases (replies a) = inr (a, refl)

place_nil :
    (restores : List Restore) (ps : List Pending) (results : List RestoreResult)
    → place restores ps [] results ≡ results
unfolding place
place_nil restores ps results = refl

module _ (t : Tables) (start : ℕ) (uuid : ℕ → String) where
  module _ (r : Restore) (rs : List Restore) (i n : ℕ) (e : HistoryError)
      (x : check_restore t start r ≡ fails e) where
    prepare_fails : prepare t start uuid (r ∷ rs) i n ≡ (
      refused r.entry_id r.version_id e ∷ (prepare t start uuid rs (suc i) n).0,
      (prepare t start uuid rs (suc i) n).1,
    )
    unfolding prepare
    prepare_fails = rw (x, prepare) refl

    answer_fails :
        (bs : List BatchResult)
        → answer_each t start (r ∷ rs) bs
          ≡ refused r.entry_id r.version_id e ∷ answer_each t start rs bs
    unfolding answer_each
    answer_fails [] = rw (x, answer_each) refl
    answer_fails (b ∷ bs) = rw (x, answer_each) refl

  module _ (r : Restore) (rs : List Restore) (i n from : ℕ)
      (x : check_restore t start r ≡ replies from) where
    prepare_replies : prepare t start uuid (r ∷ rs) i n ≡ (
      commit_pending r.entry_id r.version_id ∷ (prepare t start uuid rs (suc i) (suc n)).0,
      record { index = i; from = from; mutation = mutation_of (uuid n) r }
          ∷ (prepare t start uuid rs (suc i) (suc n)).1,
    )
    unfolding prepare
    prepare_replies = rw (x, prepare) refl

    answer_nil :
        answer_each t start (r ∷ rs) []
        ≡ commit_pending r.entry_id r.version_id ∷ answer_each t start rs []
    unfolding answer_each
    answer_nil = rw (x, answer_each) refl

    answer_replies :
        (b : BatchResult) (bs : List BatchResult)
        → answer_each t start (r ∷ rs) (b ∷ bs) ≡ answer_of r from b ∷ answer_each t start rs bs
    unfolding answer_each
    answer_replies b bs = rw (x, answer_each) refl

  prepare-answers :
      (rs : List Restore) (i n : ℕ) → (prepare t start uuid rs i n).0 ≡ answer_each t start rs []
  prepare-answers [] i n = unfold prepare answer_each in refl
  prepare-answers (r ∷ rs) i n = elim (Reply-cases (check_restore t start r)) [
    | inl (e, x) ↦
        rw (prepare_fails r rs i n e x, answer_fails r rs i n e x [])
          (ap (λ xs. refused r.entry_id r.version_id e ∷ xs) (prepare-answers rs (suc i) n))
    | inr (from, x) ↦
        rw (prepare_replies r rs i n from x, answer_nil r rs i n from x)
          (ap (λ xs. commit_pending r.entry_id r.version_id ∷ xs)
            (prepare-answers rs (suc i) (suc n)))
  ]

  place-each :
      (front rs : List Restore) (done : List RestoreResult) (i n : ℕ) (bs : List BatchResult)
      → length front ≡ i
      → length done ≡ i
      → place
          (front ++ rs)
          (prepare t start uuid rs i n).1
          bs
          (done ++ (prepare t start uuid rs i n).0)
        ≡ done ++ answer_each t start rs bs
  unfolding place
  place-each front rs done i n [] g h = ap (λ xs. done ++ xs) (prepare-answers rs i n)
  place-each front [] done i n (b ∷ bs) g h = unfold prepare place answer_each in refl
  place-each front (r ∷ rs) done i n (b ∷ bs) g h =
      let longer = length-append front (r ∷ []) in
      elim (Reply-cases (check_restore t start r)) [
        | inl (e, x) ↦
            let put = refused r.entry_id r.version_id e in
            rw (prepare_fails r rs i n e x, answer_fails r rs i n e x (b ∷ bs))
              (rw
                (
                  append_assoc front (r ∷ []) rs,
                  append_assoc done (put ∷ []) (prepare t start uuid rs (suc i) n).0,
                  append_assoc done (put ∷ []) (answer_each t start rs (b ∷ bs)),
                )
                at
                (place-each (front ++ r ∷ []) rs (done ++ put ∷ []) (suc i) n (b ∷ bs)
                  (omega (arith, longer)) (omega (arith, length-append done (put ∷ [])))))
        | inr (from, x) ↦
            let put = answer_of r from b in
            let found : get_elem? (front ++ r ∷ rs) i ≡ some r =
              subst (λ k. get_elem? (front ++ r ∷ rs) k ≡ some r) g (get_elem-middle front r rs) in
            let filled =
              subst
                (λ k.
                  set_at k put (
                    done
                    ++ commit_pending r.entry_id r.version_id
                      ∷ (prepare t start uuid rs (suc i) (suc n)).0)
                  ≡ done ++ put ∷ (prepare t start uuid rs (suc i) (suc n)).0)
                h
                (set_at-middle done put (commit_pending r.entry_id r.version_id)
                  (prepare t start uuid rs (suc i) (suc n)).0) in
            rw (prepare_replies r rs i n from x, answer_replies r rs i n from x b bs, found, filled)
              ((rw
                (
                  append_assoc front (r ∷ []) rs,
                  append_assoc done (put ∷ []) (prepare t start uuid rs (suc i) (suc n)).0,
                  append_assoc done (put ∷ []) (answer_each t start rs bs),
                )
                at
                (place-each (front ++ r ∷ []) rs (done ++ put ∷ []) (suc i) (suc n) bs
                  (omega (arith, longer)) (omega (arith, length-append done (put ∷ []))))))
      ]

commit_restores_lem :
    (call : CommitCall) (request_id : String) (restores : List Restore) (s u : BlobSync)
    (b : CommitMutationsResult) (prepared : List RestoreResult × List Pending) (p : Pending)
    (ps : List Pending)
    → prepared.1 ≡ p ∷ ps
    → commit_mutations_request
        (restoring (length (p ∷ ps)) call)
        request_id
        (map (λ q. q.mutation) (p ∷ ps))
        s
      ≡ ok (b, u)
    → commit_restores call request_id restores s prepared
      ≡ replies (
        record {
          cursor = b.cursor;
          results = place restores prepared.1 b.results prepared.0;
          broadcast_cursor = b.broadcast_cursor;
        },
        u,
      )
unfolding commit_restores
commit_restores_lem call request_id restores s u b (results, pending) p ps e h = rw e (rw h refl)

-- A batch of restores is answered restore by restore: one that fails its tests with its error, and
-- each of the others with its own result of the commit, whose mutations are those of the restores
-- that pass their tests. The vault is initialized, some restore passes its tests, and the commit
-- does not throw.
pub restore_entry_versions-each :
    (call : CommitCall) (request_id : String) (restores : List Restore) (s u : BlobSync)
    (b : CommitMutationsResult) (days : ℕ) (p : Pending) (ps : List Pending)
    → read_version_history_retention_days (tables_of s) ≡ ok days
    → (prepare (tables_of s) (retention_start call.now days) call.random_uuid restores 0 0).1
      ≡ p ∷ ps
    → commit_mutations_request
        (restoring (length (p ∷ ps)) call)
        request_id
        (map (λ q. q.mutation) (p ∷ ps))
        s
      ≡ ok (b, u)
    → restore_entry_versions call request_id restores s
      ≡ replies (
        record {
          cursor = b.cursor;
          results = answer_each (tables_of s) (retention_start call.now days) restores b.results;
          broadcast_cursor = b.broadcast_cursor;
        },
        u,
      )
unfolding restore_entry_versions
restore_entry_versions-each call request_id restores s u b days p ps d e h =
    let start = retention_start call.now days in
    let placed =
      place-each (tables_of s) start call.random_uuid [] restores [] 0 0 b.results refl refl in
    rw (d, restore_entry_versions)
      (commit_restores_lem call request_id restores s u b
          (prepare (tables_of s) start call.random_uuid restores 0 0) p ps e h
        ∙ ap
            (λ xs. replies (
              record { cursor = b.cursor; results = xs; broadcast_cursor = b.broadcast_cursor },
              u,
            ))
            placed)
