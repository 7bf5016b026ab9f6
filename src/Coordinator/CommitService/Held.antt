-- ===== src/Coordinator/CommitService/Held.antt =====
-- A commit refers to no blob without an object.
use syncali.Prelude.{
  ℕ, ◌≡◌, ◌∙◌, refl, ap, subst, String, true, false, not, ◌||◌, Option, none, some, List, [], ◌∷◌,
  arith, leb, truthy, has, same, select_where, Bool-cases, Option-cases, inl, inr,
}
use syncali.Coordinator.Tables.{Tables, EntryVersion, ok, ok-injective, ok-split}
use syncali.Coordinator.CursorStore.{read_version_history_retention_days}
use syncali.Coordinator.MutationStore.Model.{Mutation, CommitContext, next_blob_id}
use syncali.Coordinator.MutationStore.Blobs.{
  Names, SameNames-Names, save_cursor-SameNames, commit_one-Names,
}
use syncali.Coordinator.MutationStore.{
  commit_mutations, commit_all, commit_one, start_batch, save_cursor, response_cursor,
  CommitMutationsResult,
}
use syncali.Coordinator.MutationStore.Model.{Batch}
use syncali.Coordinator.BlobStore.{next_blob_gc_at}
use syncali.Coordinator.BlobSync.{BlobSync, tables_of, with_tables, arm_gc}
use syncali.Coordinator.BlobSync.Held.{IsHeld, is_held}
use syncali.Coordinator.BlobSync.Collect.{Keeps, Keeps-IsHeld, arm_gc-Keeps, schedule_flush-Keeps}
use syncali.Coordinator.CommitService.{
  CommitCall, upsert_blob_ids, unavailable_blobs, context_of, schedule_next,
  commit_mutations_request,
}

abbrev Object : List String → Option String → Type 0
Object objects o = is_held objects o ≡ true

abbrev KeptObject : ℕ → List String → EntryVersion → Type 0
KeptObject now objects v = (leb v.expires_at now || is_held objects v.blob_id) ≡ true

kept_object :
    (now : ℕ) (objects : List String) (v : EntryVersion)
    → Object objects v.blob_id
    → KeptObject now objects v
kept_object now objects v h = ground arith

free-Object : (objects : List String) (o : Option String) → truthy o ≡ none → Object objects o
unfolding is_held
free-Object objects o e = rw (e, is_held) refl

held-Object :
    (objects : List String) (o : Option String) (id : String)
    → truthy o ≡ some id
    → has objects id ≡ true
    → Object objects o
unfolding is_held
held-Object objects o id e h = rw (e, is_held) h

-- A blob that is asked about and is not missing has an object.
not_missing :
    (objects ids : List String) (id : String)
    → has ids id ≡ true
    → has (select_where (λ i. not (has objects i)) ids) id ≡ false
    → has objects id ≡ true
unfolding select_where has
not_missing objects [] id h k = ground arith
not_missing objects (i ∷ ids) id h k = elim (Bool-cases (has objects i)) [
  | inl e ↦ elim (Bool-cases (same i id)) [
    | inl f ↦ ground (arith, e)
    | inr f ↦ not_missing objects ids id (rw f at h) (rw e at k)
  ]
  | inr e ↦ elim (Bool-cases (same i id)) [
    | inl f ↦ ground (arith, rw (e, f) at k)
    | inr f ↦ not_missing objects ids id (rw f at h) (rw f at (rw e at k))
  ]
]

-- The blob that a mutation names is asked about.
has-upsert_here :
    (m : Mutation) (ms : List Mutation) (id : String)
    → truthy (next_blob_id m) ≡ some id
    → has (upsert_blob_ids (m ∷ ms)) id ≡ true
unfolding upsert_blob_ids has
has-upsert_here m ms id e = rw (e, upsert_blob_ids) (ground arith)

has-upsert_later :
    (m : Mutation) (ms : List Mutation) (id : String)
    → has (upsert_blob_ids ms) id ≡ true
    → has (upsert_blob_ids (m ∷ ms)) id ≡ true
unfolding upsert_blob_ids has
has-upsert_later m ms id h = elim (Option-cases (truthy (next_blob_id m))) [
  | inl e ↦ rw (e, upsert_blob_ids) h
  | inr (i, e) ↦ rw (e, upsert_blob_ids) (ground arith)
]

abbrev Held : ℕ → List String → Tables → Type 0
Held now objects t = Names (Object objects) (KeptObject now objects) (kept_object now objects) t

commit_all-Names :
    (now : ℕ) (objects : List String) (c : CommitContext) (ms : List Mutation) (s u : Batch)
    → ((id : String)
        → has (upsert_blob_ids ms) id ≡ true
        → has c.unavailable_blob_ids id ≡ false
        → has objects id ≡ true)
    → commit_all c ms s ≡ ok u
    → Held now objects s.tables
    → Held now objects u.tables
unfolding commit_all upsert_blob_ids
commit_all-Names now objects c [] s u a e h =
    subst (λ x. Held now objects x.tables) (ok-injective s u e) h
commit_all-Names now objects c (m ∷ ms) s u a e h =
    let (s', f, rest) = ok-split (commit_one c m s) _ e in
    commit_all-Names now objects c ms s' u (λ id x y. a id (has-upsert_later m ms id x) y) rest
      (commit_one-Names (Object objects) (KeptObject now objects) (kept_object now objects) c m
        (free-Object objects (next_blob_id m))
        (λ id x y. held-Object objects (next_blob_id m) id x (a id (has-upsert_here m ms id x) y)) s
        s' f (free-Object objects none refl) h)

commit_mutations-Held :
    (now : ℕ) (objects : List String) (c : CommitContext) (request_id : String) (ms : List Mutation)
    (t u : Tables) (r : CommitMutationsResult)
    → ((id : String)
        → has (upsert_blob_ids ms) id ≡ true
        → has c.unavailable_blob_ids id ≡ false
        → has objects id ≡ true)
    → commit_mutations c request_id ms t ≡ ok (r, u)
    → Held now objects t
    → Held now objects u
unfolding commit_mutations start_batch
commit_mutations-Held now objects c request_id ms t u r a e h =
    let (s, f, rest) = ok-split (commit_all c ms (start_batch t)) _ e in
    let (cursor, g, last) = ok-split (response_cursor s (save_cursor c.now s)) _ rest in
    subst (Held now objects) (ap (λ x. x.1) (ok-injective _ _ last)) (
      SameNames-Names (Object objects) (KeptObject now objects) (kept_object now objects) s.tables
        (save_cursor c.now s) (save_cursor-SameNames c.now s)
        (commit_all-Names now objects c ms (start_batch t) s a f h))

schedule_next-Keeps :
    (broadcast : Option ℕ) (later : ℕ) (s : BlobSync) → Keeps s (schedule_next broadcast later s)
unfolding schedule_next
schedule_next-Keeps none later s = (refl, refl, refl)
schedule_next-Keeps (some cursor) later s =
    let armed = arm_gc (next_blob_gc_at (tables_of s) later) true later s in
    let k = arm_gc-Keeps (next_blob_gc_at (tables_of s) later) true later s in
    let l = schedule_flush-Keeps later armed in (l.0 ∙ k.0, l.1 ∙ k.1, l.2 ∙ k.2)

-- A commit that succeeds leaves every blob that an entry names, or a version that has not expired,
-- with its object, if it was so before: a mutation whose blob has no object is not applied.
pub commit_mutations_request-IsHeld :
    (now : ℕ) (call : CommitCall) (request_id : String) (ms : List Mutation) (s u : BlobSync)
    (r : CommitMutationsResult)
    → commit_mutations_request call request_id ms s ≡ ok (r, u)
    → IsHeld now s
    → IsHeld now u
unfolding commit_mutations_request unavailable_blobs
commit_mutations_request-IsHeld now call request_id ms s u r e h =
    let (days, f, rest) = ok-split (read_version_history_retention_days (tables_of s)) _ e in
    let c = context_of call days (unavailable_blobs s.objects ms) in
    let (first, g, last) = ok-split (commit_mutations c request_id ms (tables_of s)) _ rest in
    let committed = with_tables s first.1 in
    let held =
      commit_mutations-Held now s.objects c request_id ms (tables_of s) first.1 first.0
        (not_missing s.objects (upsert_blob_ids ms)) g
        (record { entries = h.entries; versions = h.versions }) in
    subst (IsHeld now) (ap (λ x. x.1) (ok-injective _ _ last)) (
      Keeps-IsHeld now committed _
        (schedule_next-Keeps first.0.broadcast_cursor call.later committed)
        (record { entries = held.entries; versions = held.versions }))
