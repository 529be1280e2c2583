-- ===== src/MappedFile/Handles/Ownership.antt =====
-- storage/mapped_file.cpp: who owns a mapping across open, close and the moves.
use palm_infra.Common.{
  ℕ, ◌+◌, ◌==◌, none, some, List, [], ◌∷◌, ◌++◌, set, get_elem?, sum_of-append, sum_of-set,
  le-sum_of, All-set, All-get_elem?, get_elem?-set_other, ◌≢◌, All-append, ◌≡◌, refl, ◌∙◌, arith,
  inl, inr, Bool-cases, Option-cases,
}
use palm_infra.MappedFile.{no_header}
use palm_infra.MappedFile.Handles.{
  MappedFile, no_file, Process, Answers, close, open_file, Objects, Call, put_file, assign, call,
  calls,
}
use palm_infra.MappedFile.Handles.Mappings.{
  count, owns, Consistent, Backed, count-close, close_closed, open_file_lem, IsOwned,
}

closed_owns : (k : ℕ × ℕ) (f : MappedFile) → f.mapped ≡ none → owns k f ≡ 0
closed_owns k f e = rw (e, owns)

closed-Consistent : (f : MappedFile) → f.mapped ≡ none → f.header ≡ no_header → Consistent f
closed-Consistent f e z = rw (e, Consistent) z

module _ (s : Objects) (v : IsOwned s) where
  backed : (i : ℕ) (f : MappedFile) → get_elem? s.files i ≡ some f → Backed f s.process
  backed i f e k = omega (arith, le-sum_of (owns k) s.files i f e, v.owned k)

  -- An object and the process changed together.
  put_file-IsOwned :
      (i : ℕ) (f f' : MappedFile) (w : Process)
      → get_elem? s.files i ≡ some f
      → ((k : ℕ × ℕ) → count k w.live + owns k f ≡ count k s.process.live + owns k f')
      → Consistent f'
      → IsOwned (put_file s i f' w)
  unfolding put_file
  put_file-IsOwned i f f' w e h c = record {
    owned = λ k. omega (arith, v.owned k, h k, sum_of-set (owns k) s.files i f' f e);
    consistent = All-set Consistent s.files i f' v.consistent c;
  }

  open-IsOwned :
      (answers : Answers) (i : ℕ) (f : MappedFile)
      → get_elem? s.files i ≡ some f
      → let r = open_file answers f s.process in
        IsOwned (put_file s i r.0 r.1) × (r.1.descriptors ≡ s.process.descriptors)
  open-IsOwned answers i f e =
      let o = λ (k : ℕ × ℕ). open_file_lem k answers f s.process (backed i f e) in
      let r = open_file answers f s.process in
      (put_file-IsOwned i f r.0 r.1 e (λ k. (o k).0) (o (0, 0)).1, (o (0, 0)).2)

  close-IsOwned :
      (i : ℕ) (f : MappedFile)
      → get_elem? s.files i ≡ some f
      → let r = close f s.process in IsOwned (put_file s i r.0 r.1)
  close-IsOwned i f e =
      let r = close f s.process in
      let z = λ (k : ℕ × ℕ). close_closed k f s.process in
      let nothing : (k : ℕ × ℕ) → owns k r.0 ≡ 0 = λ k. closed_owns k r.0 (z k).0 in
      put_file-IsOwned i f r.0 r.1 e
        (λ k. omega (arith, count-close k f s.process (backed i f e), nothing k))
        (closed-Consistent r.0 (z (0, 0)).0 (z (0, 0)).1)

  assign-IsOwned :
      (i j : ℕ) (this other : MappedFile)
      → get_elem? s.files i ≡ some this
      → get_elem? s.files j ≡ some other
      → i ≢ j
      → let w = (close this s.process).1 in IsOwned (put_file (put_file s i other w) j no_file w)
  unfolding put_file
  assign-IsOwned i j this other e d n =
      let w = (close this s.process).1 in
      let kept = get_elem?-set_other s.files i j other n ∙ d in
      let moved =
        All-set Consistent s.files i other v.consistent
          (All-get_elem? Consistent s.files j other v.consistent d) in
      record {
        owned = λ k. omega (
          arith,
          v.owned k,
          count-close k this s.process (backed i this e),
          sum_of-set (owns k) s.files i other this e,
          sum_of-set (owns k) (set s.files i other) j no_file other kept,
        );
        consistent = All-set Consistent (set s.files i other) j no_file moved refl;
      }

  construct-IsOwned :
      (i : ℕ) (f : MappedFile)
      → get_elem? s.files i ≡ some f
      → IsOwned (record { files = set s.files i no_file ++ f ∷ []; process = s.process })
  construct-IsOwned i f e = record {
    owned = λ k. omega (
      arith,
      v.owned k,
      sum_of-append (owns k) (set s.files i no_file) (f ∷ []),
      sum_of-set (owns k) s.files i no_file f e,
    );
    consistent =
        All-append Consistent (set s.files i no_file) (f ∷ [])
          (All-set Consistent s.files i no_file v.consistent refl)
          (All-get_elem? Consistent s.files i f v.consistent e, tt);
  }

-- A store with its descriptors as before.
abbrev Keeps : Objects → Objects → Type 0
Keeps s t = IsOwned t × (t.process.descriptors ≡ s.process.descriptors)

assign-Keeps :
    (s : Objects) (v : IsOwned s) (i j : ℕ) (this other : MappedFile)
    → get_elem? s.files i ≡ some this
    → get_elem? s.files j ≡ some other
    → Keeps s (assign s i j this other)
unfolding assign
assign-Keeps s v i j this other e d = elim (Bool-cases (i == j)) [
  | inl h ↦ rw h (v, refl)
  | inr h ↦ rw h (
    assign-IsOwned s v i j this other e d (ground arith),
    unfold put_file in (close_closed (0, 0) this s.process).2,
  )
]

call-Keeps : (s : Objects) (c : Call) → IsOwned s → Keeps s (call s c)
unfolding call
call-Keeps s (Call.open_at answers i) v = elim (Option-cases (get_elem? s.files i)) [
  | inl e ↦ rw (e, call) (v, refl)
  | inr (f, e) ↦ rw (e, call) (unfold put_file in (open-IsOwned s v answers i f e))
]
call-Keeps s (Call.close_at i) v = elim (Option-cases (get_elem? s.files i)) [
  | inl e ↦ rw (e, call) (v, refl)
  | inr (f, e) ↦
      rw (e, call) (close-IsOwned s v i f e, unfold put_file in (close_closed (0, 0) f s.process).2)
]
call-Keeps s (Call.move_construct i) v = elim (Option-cases (get_elem? s.files i)) [
  | inl e ↦ rw (e, call) (v, refl)
  | inr (f, e) ↦ rw (e, call) (construct-IsOwned s v i f e, refl)
]
call-Keeps s (Call.move_assign i j) v = elim (Option-cases (get_elem? s.files i)) [
  | inl e ↦ rw (e, call) (v, refl)
  | inr (this, e) ↦ elim (Option-cases (get_elem? s.files j)) [
    | inl d ↦ rw (e, d, call) (v, refl)
    | inr (other, d) ↦ rw (e, d, call) (assign-Keeps s v i j this other e d)
  ]
]

-- Whatever the system answers, any sequence of opens, closes and moves, an assignment of an object to
-- itself included, keeps every live mapping owned by one object and every open object the owner of
-- a live mapping, each header valid for its file or zero, and leaves no descriptor open.
pub calls-IsOwned :
    (s : Objects) (cs : List Call)
    → IsOwned s
    → IsOwned (calls s cs) × ((calls s cs).process.descriptors ≡ s.process.descriptors)
unfolding calls
calls-IsOwned s [] v = (v, refl)
calls-IsOwned s (c ∷ cs) v =
    let once = call-Keeps s c v in
    let rest = calls-IsOwned (call s c) cs once.0 in (rest.0, rest.1 ∙ once.1)
