-- ===== src/Plugin/Vector.antt =====
-- Proofs about the vector reads of the plugins (src/plugins): the loop over parallel arrays is a walk over
-- a list of slots.
use mathlib.Core.List.{append_assoc}
use pwrapi_ref.Prelude.{
  suc, ◌≡◌, refl, sym, ap, ◌∙◌, arith, Option, none, some, List, [], ◌∷◌, ◌++◌, map, Outcome,
  returns, aborts, faults, ◌>>=◌, length, get_elem?, length-append,
}
use pwrapi_ref.Prelude.Int.{ℤ}
use pwrapi_ref.Prelude.Io.{Io}
use pwrapi_ref.Types.{AttrName}
use pwrapi_ref.Plugin.{
  Reading, Arrays, written, put_at, put_written, store, resume, readv_from, readv,
}

-- One place of the arrays.
pub record Slot (D : Type 0) : Type 0 where
  pub attr : AttrName
  pub value : D
  pub stamp : ℤ
  pub status : ℤ

module _ {D : Type 0} where
  -- A slot after a reading of its attribute.
  abbrev pub filled : Slot D → Reading D → Slot D
  filled s r = record s {
    value = written r.value s.value;
    stamp = written r.stamp s.stamp;
    status = r.status;
  }

  -- The arrays that the slots stand for, with room after them.
  abbrev pub arrays : Arrays D → List (Slot D) → Arrays D
  arrays room slots = record {
    values = map (λ s. s.value) slots ++ room.values;
    stamps = map (λ s. s.stamp) slots ++ room.stamps;
    statuses = map (λ s. s.status) slots ++ room.statuses;
  }

  module _ {W : Type 0} (read : AttrName → Io W (Outcome (Reading D))) where
    abbrev pub fill_next :
        Slot D
        → Outcome (Reading D)
        → Io W (Outcome (List (Slot D)))
        → Io W (Outcome (List (Slot D)))
    fill_next s (returns r) rest w =
        let (o, w') = rest w in (o >>= λ out. returns (filled s r ∷ out), w')
    fill_next s aborts rest w = (aborts, w)
    fill_next s faults rest w = (faults, w)

    -- Slot by slot, each is filled by the read of its own attribute, in the state that the reads before
    -- it left; the first read that does not return ends it.
    abbrev pub fill : List (Slot D) → Io W (Outcome (List (Slot D)))
    fill [] w = (returns [], w)
    fill (s ∷ slots) w = let (r, w') = read s.attr w in fill_next s r (fill slots) w'

  get_elem?-map :
      (done rest : List (Slot D)) (s : Slot D)
      → get_elem? (map (λ s. s.attr) (done ++ s ∷ rest)) (length done) ≡ some s.attr
  get_elem?-map [] rest s = refl
  get_elem?-map (d ∷ done) rest s = get_elem?-map done rest s

  put_at-map :
      {A : Type 0} (f : Slot D → A) (done rest : List (Slot D)) (s s' : Slot D) (room : List A)
      → put_at (map f (done ++ s ∷ rest) ++ room) (length done) (f s')
        ≡ returns (map f (done ++ s' ∷ rest) ++ room)
  put_at-map f [] rest s s' room = refl
  put_at-map f (d ∷ done) rest s s' room = rw (put_at-map f done rest s s' room) refl

  put_written-map :
      {A : Type 0} (f : Slot D → A) (o : Option A) (done rest : List (Slot D)) (s s' : Slot D)
      (room : List A)
      → f s' ≡ written o (f s)
      → put_written (map f (done ++ s ∷ rest) ++ room) (length done) o
        ≡ returns (map f (done ++ s' ∷ rest) ++ room)
  put_written-map f none done rest s s' room e = ap returns (same done)
    where
      same :
          (done : List (Slot D))
          → map f (done ++ s ∷ rest) ++ room ≡ map f (done ++ s' ∷ rest) ++ room
      same [] = ap (λ v. v ∷ (map f rest ++ room)) (sym e)
      same (d ∷ done) = ap (λ vs. f d ∷ vs) (same done)
  put_written-map f (some v) done rest s s' room e =
      ap (put_at (map f (done ++ s ∷ rest) ++ room) (length done)) (sym e)
      ∙ put_at-map f done rest s s' room

  store-arrays :
      (r : Reading D) (done rest : List (Slot D)) (s : Slot D) (room : Arrays D)
      → store (length done) r (arrays room (done ++ s ∷ rest))
        ≡ returns (arrays room (done ++ filled s r ∷ rest))
  store-arrays r done rest s room =
      rw
        (
          put_written-map (λ s. s.value) r.value done rest s (filled s r) room.values refl,
          put_written-map (λ s. s.stamp) r.stamp done rest s (filled s r) room.stamps refl,
          put_at-map (λ s. s.status) done rest s (filled s r) room.statuses,
        )
        refl

  length-end : (done : List (Slot D)) (s : Slot D) → length (done ++ s ∷ []) ≡ suc (length done)
  length-end done s = omega (arith, length-append done (s ∷ []))

  same_attrs :
      (done rest : List (Slot D)) (s : Slot D) (r : Reading D)
      → map (λ s. s.attr) (done ++ filled s r ∷ rest) ≡ map (λ s. s.attr) (done ++ s ∷ rest)
  same_attrs [] rest s r = refl
  same_attrs (d ∷ done) rest s r = ap (λ attrs. d.attr ∷ attrs) (same_attrs done rest s r)

  -- The arrays after the slots that are done, and the ones that come of the rest.
  abbrev pub ended : Arrays D → List (Slot D) → Outcome (List (Slot D)) → Outcome (Arrays D)
  ended room done o = o >>= λ out. returns (arrays room (done ++ out))

  ended-next :
      (room : Arrays D) (done : List (Slot D)) (s : Slot D) (o : Outcome (List (Slot D)))
      → ended room (done ++ s ∷ []) o ≡ ended room done (o >>= λ out. returns (s ∷ out))
  ended-next room done s (returns out) =
      ap (λ l. returns (arrays room l)) (append_assoc done (s ∷ []) out)
  ended-next room done s aborts = refl
  ended-next room done s faults = refl

  module _ {W : Type 0} (read : AttrName → Io W (Outcome (Reading D))) where
    readv_from-fill :
        (slots done : List (Slot D)) (room : Arrays D) (w : W)
        → readv_from read
            (length slots)
            (length done)
            (map (λ s. s.attr) (done ++ slots))
            (arrays room (done ++ slots))
            w
          ≡ (ended room done (fill read slots w).0, (fill read slots w).1)
    unfolding readv_from
    readv_from-fill [] done room w = refl
    readv_from-fill (s ∷ slots) done room w =
        rw (get_elem?-map done slots s)
          (next (λ done' w. readv_from-fill slots done' room w) (read s.attr w).0 (read s.attr w).1)
      where
        next :
            ((done' : List (Slot D)) (w : W)
              → readv_from read
                  (length slots)
                  (length done')
                  (map (λ s. s.attr) (done' ++ slots))
                  (arrays room (done' ++ slots))
                  w
                ≡ (ended room done' (fill read slots w).0, (fill read slots w).1))
            → (r : Outcome (Reading D)) (w : W)
            → resume
                (r >>= λ r. store (length done) r (arrays room (done ++ s ∷ slots)))
                (readv_from read
                  (length slots)
                  (suc (length done))
                  (map (λ s. s.attr) (done ++ s ∷ slots)))
                w
              ≡ (
                ended room done (fill_next read s r (fill read slots) w).0,
                (fill_next read s r (fill read slots) w).1,
              )
        next ih (returns r) w =
            let done' = done ++ filled s r ∷ [] in
            let moved = append_assoc done (filled s r ∷ []) slots in
            rw
              (
                store-arrays r done slots s room,
                sym (same_attrs done slots s r),
                sym moved,
                sym (length-end done (filled s r)),
                ih done' w,
                ended-next room done (filled s r) (fill read slots w).0,
              )
              refl
        next ih aborts w = refl
        next ih faults w = refl

    -- A vector read of as many attributes as there are slots is the walk over the slots: place `i` of the
    -- arrays gets the status, the value and the time of the read of attribute `i`, made after the reads
    -- before it, and keeps what that read did not write; what comes after in the arrays is left alone;
    -- and it returns, aborts or faults as the walk does, and leaves the same state.
    pub readv-fill :
        (slots : List (Slot D)) (room : Arrays D) (w : W)
        → readv read (length slots) (map (λ s. s.attr) slots) (arrays room slots) w
          ≡ (ended room [] (fill read slots w).0, (fill read slots w).1)
    unfolding readv
    readv-fill slots room w = readv_from-fill slots [] room w
