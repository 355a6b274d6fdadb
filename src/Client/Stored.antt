-- ===== src/Client/Stored.antt =====
-- Proofs about src/pwr/distRequest.cc: where the values of an answer are stored.
use mathlib.Core.List.{append_assoc, append-nil}
use pwrapi_ref.Prelude.{
  ℕ, zero, suc, ◌+◌, ◌<◌, ◌≡◌, refl, sym, ap, ap₂, ◌∙◌, arith, Option, some, List, [], ◌∷◌, ◌++◌,
  returns, assert, ◌==◌, ==_self, lt→ltb, length, length-append, set, All,
}
use pwrapi_ref.Prelude.Int.{ℤ}
use pwrapi_ref.Wire.{Text}
use pwrapi_ref.Events.Responses.{CommRespEvent}
use pwrapi_ref.Client.{
  Status, Request, status_add, note_errors, erase_req, get_value, write_at, copy_row, copy_rows,
}

-- The element after a prefix is the one that is written.
set-after : (xs : List ℕ) (y v : ℕ) (ys : List ℕ) → set (xs ++ y ∷ ys) (length xs) v ≡ xs ++ v ∷ ys
set-after [] y v ys = refl
set-after (x ∷ xs) y v ys = ap (◌∷◌ x) (set-after xs y v ys)

write_at-after :
    (xs : List ℕ) (y v : ℕ) (ys : List ℕ)
    → write_at (xs ++ y ∷ ys) (length xs) v ≡ returns (xs ++ v ∷ ys)
unfolding write_at
write_at-after xs y v ys =
    rw (lt→ltb (length xs) (length (xs ++ y ∷ ys)) inside) (ap returns (set-after xs y v ys))
  where
    inside : length xs < length (xs ++ y ∷ ys)
    inside = omega (arith, length-append xs (y ∷ ys))

length-end : (xs : List ℕ) (v : ℕ) → length (xs ++ v ∷ []) ≡ suc (length xs)
length-end xs v = omega (arith, length-append xs (v ∷ []))

-- A row takes the place of as many elements.
copy_row-after :
    (xs row ys zs : List ℕ) (us ts vs ws : List ℕ)
    → length ys ≡ length row
    → length ts ≡ length row
    → length vs ≡ length row
    → copy_row (length xs) (length us) row ts (xs ++ (ys ++ zs), us ++ (vs ++ ws))
      ≡ returns (xs ++ (row ++ zs), us ++ (ts ++ ws))
unfolding copy_row
copy_row-after xs [] [] zs us [] [] ws a b c = refl
copy_row-after xs [] (y ∷ ys) zs us ts vs ws a b c = absurd (omega arith)
copy_row-after xs [] [] zs us (t ∷ ts) vs ws a b c = absurd (omega arith)
copy_row-after xs [] [] zs us [] (v ∷ vs) ws a b c = absurd (omega arith)
copy_row-after xs (r ∷ row) [] zs us ts vs ws a b c = absurd (omega arith)
copy_row-after xs (r ∷ row) (y ∷ ys) zs us [] vs ws a b c = absurd (omega arith)
copy_row-after xs (r ∷ row) (y ∷ ys) zs us (t ∷ ts) [] ws a b c = absurd (omega arith)
copy_row-after xs (r ∷ row) (y ∷ ys) zs us (t ∷ ts) (v ∷ vs) ws a b c =
    rw (write_at-after xs y r (ys ++ zs), write_at-after us v t (vs ++ ws))
      (simp (append_assoc, length-end xs r, length-end us t) at
        (copy_row-after (xs ++ r ∷ []) row ys zs (us ++ t ∷ []) ts vs ws (omega arith) (omega arith)
          (omega arith)))

-- Rows one after the other, and the pointers to `k` rows of `n` elements from `o` on.
abbrev pub flat : List (List ℕ) → List ℕ
flat [] = []
flat (row ∷ rows) = row ++ flat rows

abbrev pub pointers : ℕ → ℕ → ℕ → List (Option ℕ)
pointers o n zero = []
pointers o n (suc k) = some o ∷ pointers (o + n) n k

length-pointers : (o n k : ℕ) → length (pointers o n k) ≡ k
length-pointers o n zero = refl
length-pointers o n (suc k) = ap suc (length-pointers (o + n) n k)

abbrev pub AllOf : ℕ → List (List ℕ) → Type 0
AllOf n rows = All (λ row. length row ≡ n) rows

copy_rows-after :
    (n : ℕ) (rows tss olds : List (List ℕ)) (old_times : List (List ℕ)) (xs zs us ws : List ℕ)
    → AllOf n rows
    → AllOf n tss
    → AllOf n olds
    → AllOf n old_times
    → length tss ≡ length rows
    → length olds ≡ length rows
    → length old_times ≡ length rows
    → copy_rows
        (pointers (length xs) n (length rows))
        (pointers (length us) n (length rows))
        rows
        tss
        (xs ++ (flat olds ++ zs), us ++ (flat old_times ++ ws))
      ≡ returns (xs ++ (flat rows ++ zs), us ++ (flat tss ++ ws))
unfolding copy_rows
copy_rows-after n [] [] [] [] xs zs us ws h1 h2 h3 h4 a b c = refl
copy_rows-after n [] (t ∷ ts) olds times xs zs us ws h1 h2 h3 h4 a b c = absurd (omega arith)
copy_rows-after n [] [] (o ∷ os) times xs zs us ws h1 h2 h3 h4 a b c = absurd (omega arith)
copy_rows-after n [] [] [] (v ∷ vs) xs zs us ws h1 h2 h3 h4 a b c = absurd (omega arith)
copy_rows-after n (r ∷ rs) [] olds times xs zs us ws h1 h2 h3 h4 a b c = absurd (omega arith)
copy_rows-after n (r ∷ rs) (t ∷ ts) [] times xs zs us ws h1 h2 h3 h4 a b c = absurd (omega arith)
copy_rows-after n (r ∷ rs) (t ∷ ts) (o ∷ os) [] xs zs us ws h1 h2 h3 h4 a b c = absurd (omega arith)
copy_rows-after n (r ∷ rs) (t ∷ ts) (o ∷ os) (v ∷ vs) xs zs us ws (hr, hrs) (ht, hts) (ho, hos)
      (hv, hvs) a b c =
    rw first (
      ap₂
        (λ i j.
          copy_rows (pointers i n (length rs)) (pointers j n (length rs)) rs ts
            ((xs ++ r) ++ (flat os ++ zs), (us ++ t) ++ (flat vs ++ ws)))
        (next xs r hr) (next us t ht)
      ∙ copy_rows-after n rs ts os vs (xs ++ r) zs (us ++ t) ws hrs hts hos hvs (omega arith)
          (omega arith) (omega arith)
      ∙ ap₂ (λ (m m' : List ℕ). returns (m, m')) (regroup xs r (flat rs) zs)
          (regroup us t (flat ts) ws))
  where
    regroup : (xs r ys zs : List ℕ) → (xs ++ r) ++ (ys ++ zs) ≡ xs ++ ((r ++ ys) ++ zs)
    regroup xs r ys zs = simp append_assoc refl

    next : (xs r : List ℕ) → length r ≡ n → length xs + n ≡ length (xs ++ r)
    next xs r h = omega (arith, length-append xs r, h)

    first :
        copy_row
          (length xs)
          (length us)
          r
          t
          (xs ++ ((o ++ flat os) ++ zs), us ++ ((v ++ flat vs) ++ ws))
        ≡ returns ((xs ++ r) ++ (flat os ++ zs), (us ++ t) ++ (flat vs ++ ws))
    first =
        ap₂ (λ (m m' : List ℕ). copy_row (length xs) (length us) r t (m, m'))
          (ap (λ ys. xs ++ ys) (append_assoc o (flat os) zs))
          (ap (λ ys. us ++ ys) (append_assoc v (flat vs) ws))
        ∙ copy_row-after xs r o (flat os ++ zs) us t v (flat vs ++ ws) (ho ∙ sym hr) (ht ∙ sym hr)
            (hv ∙ sym hr)
        ∙ ap₂ (λ (m m' : List ℕ). returns (m, m')) (sym (append_assoc xs r (flat os ++ zs)))
            (sym (append_assoc us t (flat vs ++ ws)))

-- The errors of an answer, put together.
abbrev pub errors : (Text → Option ℕ) → List Text → List ℤ → List ℤ → Status
errors ctx (obj ∷ objs) (attr ∷ attrs) (value ∷ values) =
    record { obj = ctx obj; name = attr; error = value } ∷ errors ctx objs attrs values
errors ctx _ _ _ = []

pub note_errors-all :
    (ctx : Text → Option ℕ) (objs : List Text) (attrs values : List ℤ) (s : Status)
    → length objs ≡ length values
    → length attrs ≡ length values
    → note_errors ctx objs attrs values s ≡ returns (s ++ errors ctx objs attrs values)
unfolding note_errors status_add
note_errors-all ctx [] [] [] s h h' = ap returns (sym (append-nil s))
note_errors-all ctx [] (a ∷ attrs) [] s h h' = absurd (omega arith)
note_errors-all ctx (o ∷ objs) attrs [] s h h' = absurd (omega arith)
note_errors-all ctx [] attrs (v ∷ values) s h h' = absurd (omega arith)
note_errors-all ctx (o ∷ objs) [] (v ∷ values) s h h' = absurd (omega arith)
note_errors-all ctx (o ∷ objs) (a ∷ attrs) (v ∷ values) s h h' =
    note_errors-all ctx objs attrs values _ (omega arith) (omega arith)
    ∙ ap returns (
        append_assoc s (record { obj = ctx o; name = a; error = v } ∷ [])
          (errors ctx objs attrs values))

-- An answer for objects whose values stand one after the other in the caller's memory, `n` for each, is
-- stored there in the order of the answer, values and times, what comes after them is left alone, and
-- its errors are added after those that there were, each with the address of the object of its name. The answer has `n` values and `n` times for each
-- object, and its vectors of errors are equally long; the memory holds as many rows.
pub get_value-stores :
    (id n : ℕ) (ev : CommRespEvent) (r : Request) (olds old_times : List (List ℕ)) (zs ws : List ℕ)
    → AllOf n ev.value
    → AllOf n ev.time_stamp
    → AllOf n olds
    → AllOf n old_times
    → length ev.time_stamp ≡ length ev.value
    → length olds ≡ length ev.value
    → length old_times ≡ length ev.value
    → length ev.err_obj ≡ length ev.err_value
    → length ev.err_attr ≡ length ev.err_value
    → r.value ≡ pointers 0 n (length ev.value)
    → r.time_stamp ≡ pointers 0 n (length ev.value)
    → r.buf ≡ flat olds ++ zs
    → r.times ≡ flat old_times ++ ws
    → get_value id ev r
      ≡ returns (record r {
        buf = flat ev.value ++ zs;
        times = flat ev.time_stamp ++ ws;
        status = r.status ++ errors r.context ev.err_obj ev.err_attr ev.err_value;
        comm_reqs = erase_req r.comm_reqs id;
      })
unfolding get_value
get_value-stores id n ev r olds old_times zs ws h1 h2 h3 h4 a b c e1 e2 at_value at_times at_buf
      at_old =
    rw (
      counted,
      copied,
      note_errors-all r.context ev.err_obj ev.err_attr ev.err_value r.status e1 e2,
    )
  where
    counted : assert (length r.value == length ev.value) ≡ returns tt
    counted = rw (at_value, length-pointers 0 n (length ev.value), ==_self (length ev.value))

    copied :
        copy_rows r.value r.time_stamp ev.value ev.time_stamp (r.buf, r.times)
        ≡ returns (flat ev.value ++ zs, flat ev.time_stamp ++ ws)
    copied =
        rw (at_value, at_times, at_buf, at_old)
          (copy_rows-after n ev.value ev.time_stamp olds old_times [] zs [] ws h1 h2 h3 h4 a b c)
