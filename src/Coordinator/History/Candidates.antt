-- ===== src/Coordinator/History/Candidates.antt =====
-- The blobs of the versions that a purge removes.
use syncali.Prelude.{
  ◌≡◌, refl, sym, String, Bool, true, false, ◌||◌, Option, none, some, List, [], ◌∷◌, ◌++◌, arith,
  same, has, truthy, All, Bool-cases, Option-cases, inl, inr, subst,
}
use syncali.Coordinator.Tables.{EntryVersion}
use syncali.Coordinator.History.{add_id, add_candidates}

-- The blob of a column, if there is one, is among `ids`.
unfoldable pub is_candidate : List String → Option String → Bool
unfolding has
is_candidate ids o = elim (truthy o) [ none ↦ true | some id ↦ has ids id ]

has-append : (ids js : List String) (id : String) → has (ids ++ js) id ≡ (has ids id || has js id)
unfolding has
has-append [] js id = refl
has-append (i ∷ ids) js id = ground (arith, has-append ids js id)

has-add_id :
    (i : String) (ids : List String) (id : String)
    → has (add_id i ids) id ≡ (same i id || has ids id)
unfolding add_id has
has-add_id i ids id = elim (Bool-cases (has ids i)) [
  | inl e ↦
      rw (e, add_id)
        (elim (Bool-cases (same i id)) [ inl f ↦ ground (arith, e) | inr f ↦ rw f refl ])
  | inr e ↦ rw (e, add_id) (ground (arith, has-append ids (i ∷ []) id))
]

has-add_candidates :
    (entry_id : String) (vs : List EntryVersion) (ids : List String) (id : String)
    → has ids id ≡ true
    → has (add_candidates entry_id vs ids) id ≡ true
unfolding add_candidates
has-add_candidates entry_id [] ids id h = h
has-add_candidates entry_id (v ∷ vs) ids id h = elim (Bool-cases (same v.entry_id entry_id)) [
  | inl e ↦ elim (Option-cases (truthy v.blob_id)) [
    | inl f ↦ rw e (rw f (has-add_candidates entry_id vs ids id h))
    | inr (b, f) ↦ rw e (
        rw f
          (has-add_candidates entry_id vs (add_id b ids) id (ground (arith, has-add_id b ids id))))
  ]
  | inr e ↦ rw e (has-add_candidates entry_id vs ids id h)
]

pub is_candidate_mono :
    (entry_id : String) (vs : List EntryVersion) (ids : List String) (o : Option String)
    → is_candidate ids o ≡ true
    → is_candidate (add_candidates entry_id vs ids) o ≡ true
unfolding is_candidate
is_candidate_mono entry_id vs ids o h = elim (Option-cases (truthy o)) [
  | inl e ↦ rw (e, is_candidate) refl
  | inr (b, e) ↦
      rw (e, is_candidate) (has-add_candidates entry_id vs ids b (rw (e, is_candidate) at h))
]

is_candidate_free :
    (ids : List String) (o : Option String) → truthy o ≡ none → is_candidate ids o ≡ true
unfolding is_candidate
is_candidate_free ids o e = rw (e, is_candidate) refl

is_candidate-has :
    (ids : List String) (o : Option String) (id : String)
    → truthy o ≡ some id
    → has ids id ≡ true
    → is_candidate ids o ≡ true
unfolding is_candidate
is_candidate-has ids o id e h = rw (e, is_candidate) h

-- Every version of the entry has its blob among the candidates.
abbrev Covers : String → List EntryVersion → List String → Type 0
Covers entry_id vs ids =
    All (λ v. same v.entry_id entry_id ≡ true → is_candidate ids v.blob_id ≡ true) vs

add_candidates_skip :
    (entry_id : String) (v : EntryVersion) (vs : List EntryVersion) (ids : List String)
    → same v.entry_id entry_id ≡ false
    → add_candidates entry_id (v ∷ vs) ids ≡ add_candidates entry_id vs ids
unfolding add_candidates
add_candidates_skip entry_id v vs ids e = rw e refl

add_candidates-none :
    (entry_id : String) (v : EntryVersion) (vs : List EntryVersion) (ids : List String)
    → truthy v.blob_id ≡ none
    → add_candidates entry_id (v ∷ vs) ids ≡ add_candidates entry_id vs ids
unfolding add_candidates
add_candidates-none entry_id v vs ids f = rw f (ground arith)

add_candidates-some :
    (entry_id : String) (v : EntryVersion) (vs : List EntryVersion) (ids : List String) (b : String)
    → same v.entry_id entry_id ≡ true
    → truthy v.blob_id ≡ some b
    → add_candidates entry_id (v ∷ vs) ids ≡ add_candidates entry_id vs (add_id b ids)
unfolding add_candidates
add_candidates-some entry_id v vs ids b e f = rw e (rw f refl)

pub add_candidates-Covers :
    (entry_id : String) (vs : List EntryVersion) (ids : List String)
    → Covers entry_id vs (add_candidates entry_id vs ids)
add_candidates-Covers entry_id [] ids = tt
add_candidates-Covers entry_id (v ∷ vs) ids = elim (Bool-cases (same v.entry_id entry_id)) [
  | inl e ↦ elim (Option-cases (truthy v.blob_id)) [
    | inl f ↦
        subst (Covers entry_id (v ∷ vs)) (sym (add_candidates-none entry_id v vs ids f))
          (λ k. is_candidate_free _ v.blob_id f, add_candidates-Covers entry_id vs ids)
    | inr (b, f) ↦
        let here =
          has-add_candidates entry_id vs (add_id b ids) b (ground (arith, has-add_id b ids b)) in
        subst (Covers entry_id (v ∷ vs)) (sym (add_candidates-some entry_id v vs ids b e f)) (
          λ k. is_candidate-has _ v.blob_id b f here,
          add_candidates-Covers entry_id vs (add_id b ids),
        )
  ]
  | inr e ↦
      subst (Covers entry_id (v ∷ vs)) (sym (add_candidates_skip entry_id v vs ids e))
        (λ k. absurd (ground (arith, e)), add_candidates-Covers entry_id vs ids)
]
