-- ===== src/Coordinator/MutationStore/Frame.antt =====
-- What a batch leaves alone, and what its results are about.
use syncali.Prelude.{
  ◌+◌, ◌≡◌, ◌≢◌, refl, sym, ap, ◌∙◌, String, List, [], ◌∷◌, ◌++◌, map, arith, All, trim,
}
use mathlib.Core.List.{append_assoc, append-nil}
use syncali.Coordinator.Tables.{Tables, ok, ok-injective, ok-split}
use syncali.Coordinator.MutationStore.Model.{
  Batch, BatchResult, accepted, rejected, Mutation, CommitContext, find_entry,
}
use syncali.Coordinator.MutationStore.Entries.{find_entry-id, find_entry-write}
use syncali.Coordinator.MutationStore.Cases.{
  StepTo, kept, applied, Answer, refusal, again, commit_one-StepTo,
}
use syncali.Coordinator.MutationStore.Answers.{Applied-entries, save_cursor-entries}
use syncali.Coordinator.MutationStore.{
  commit_one, commit_all, start_batch, save_cursor, response_cursor, commit_mutations,
  CommitMutationsResult, entry_row,
}

StepTo-find :
    (c : CommitContext) (m : Mutation) (s u : Batch) (id : String)
    → StepTo c m s u
    → m.entry_id ≢ id
    → find_entry id u.tables.entries ≡ find_entry id s.tables.entries
StepTo-find c m s u id (kept k r p a) ne = ap (λ t. find_entry id t.entries) k.tables
StepTo-find c m s u id (applied a) ne =
    let (k, entries, _, _, _) = Applied-entries c m s u a in
    ap (find_entry id) entries
    ∙ ground (
      arith,
      find_entry-write (entry_row c m (trim m.mutation_id) (m.base_revision + 1) k) id
          s.tables.entries,
    )

-- The mutation and the entry that an answer names, and those that a mutation names.
abbrev pub answered : BatchResult → String × String
answered (accepted mutation_id cursor entry_id revision) = (mutation_id, entry_id)
answered (rejected mutation_id entry_id code) = (mutation_id, entry_id)

abbrev pub asked : Mutation → String × String
asked m = (trim m.mutation_id, m.entry_id)

answered-append :
    (rs : List BatchResult) (r : BatchResult) (m : Mutation)
    → answered r ≡ asked m
    → map answered (rs ++ r ∷ []) ≡ map answered rs ++ asked m ∷ []
answered-append [] r m e = ap (λ x. x ∷ []) e
answered-append (q ∷ rs) r m e = ap (λ x. answered q ∷ x) (answered-append rs r m e)

Answer-asked : (m : Mutation) (s : Batch) (r : BatchResult) → Answer m s r → answered r ≡ asked m
Answer-asked m s r (refusal code) = refl
Answer-asked m s r (again row found last) =
    ap (λ id. (trim m.mutation_id, id)) (find_entry-id m.entry_id s.tables.entries row found)

StepTo-asked :
    (c : CommitContext) (m : Mutation) (s u : Batch)
    → StepTo c m s u
    → map answered u.results ≡ map answered s.results ++ asked m ∷ []
StepTo-asked c m s u (kept k r p a) =
    ap (map answered) p ∙ answered-append s.results r m (Answer-asked m s r a)
StepTo-asked c m s u (applied a) =
    let (cursor, _, _, results, _) = Applied-entries c m s u a in
    ap (map answered) results
    ∙ answered-append s.results
        (accepted (trim m.mutation_id) cursor m.entry_id (m.base_revision + 1)) m refl

commit_all-find :
    (c : CommitContext) (ms : List Mutation) (s u : Batch) (id : String)
    → commit_all c ms s ≡ ok u
    → All (λ m. m.entry_id ≢ id) ms
    → find_entry id u.tables.entries ≡ find_entry id s.tables.entries
unfolding commit_all
commit_all-find c [] s u id h ne =
    ap (λ x. find_entry id x.tables.entries) (sym (ok-injective s u h))
commit_all-find c (m ∷ ms) s u id h ne =
    let (s', e, rest) = ok-split (commit_one c m s) _ h in
    commit_all-find c ms s' u id rest ne.1
    ∙ StepTo-find c m s s' id (commit_one-StepTo c m s s' e) ne.0

commit_all-asked :
    (c : CommitContext) (ms : List Mutation) (s u : Batch)
    → commit_all c ms s ≡ ok u
    → map answered u.results ≡ map answered s.results ++ map asked ms
unfolding commit_all
commit_all-asked c [] s u h =
    ap (λ x. map answered x.results) (sym (ok-injective s u h)) ∙ sym (append-nil _)
commit_all-asked c (m ∷ ms) s u h =
    let (s', e, rest) = ok-split (commit_one c m s) _ h in
    commit_all-asked c ms s' u rest
    ∙ ap (λ x. x ++ map asked ms) (StepTo-asked c m s s' (commit_one-StepTo c m s s' e))
    ∙ append_assoc (map answered s.results) (asked m ∷ []) (map asked ms)

-- A batch that is committed is answered mutation by mutation, in its order: each answer names the
-- mutation, by its trimmed id, and the entry of the mutation in its place. Every entry that no
-- mutation of the batch names stays as it was.
pub commit_mutations_frame :
    (c : CommitContext) (request_id : String) (ms : List Mutation) (t u : Tables)
    (r : CommitMutationsResult) (id : String)
    → commit_mutations c request_id ms t ≡ ok (r, u)
    → All (λ m. m.entry_id ≢ id) ms
    → (map answered r.results ≡ map asked ms) × (find_entry id u.entries ≡ find_entry id t.entries)
unfolding commit_mutations start_batch
commit_mutations_frame c request_id ms t u r id h ne =
    let (s, e, rest) = ok-split (commit_all c ms (start_batch t)) _ h in
    let (cursor, f, last) = ok-split (response_cursor s (save_cursor c.now s)) _ rest in
    let out = ok-injective _ _ last in
    (
      ap (λ x. map answered x.0.results) (sym out) ∙ commit_all-asked c ms (start_batch t) s e,
      ap (λ x. find_entry id x.1.entries) (sym out)
          ∙ ap (find_entry id) (save_cursor-entries c.now s)
          ∙ commit_all-find c ms (start_batch t) s id e ne,
    )
