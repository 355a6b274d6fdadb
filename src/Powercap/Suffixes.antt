-- ===== src/Powercap/Suffixes.antt =====
-- Proofs about src/plugins/pwr_powercap.c: what `findSuffix` cuts off, and the paths made of it.
use mathlib.Core.Path.{subst}
use native.Mathlib.Decide.{dec_lt}
use mathlib.Core.List.{append_assoc}
use pwrapi_ref.Prelude.{
  ℕ, zero, suc, ◌+◌, ◌-◌, ◌<◌, ◌≡◌, ◌≢◌, refl, sym, ap, ◌∙◌, arith, [], ◌∷◌, ◌++◌, All, length,
  length-append, get_or, get_or-append, drop-append, ==_of_ne,
}
use pwrapi_ref.Powercap.Paths.{
  Text, codes, slash, back_to_slash, find_suffix, numbered_name, zones_prefix, zone_directory,
  package_directory,
}

abbrev pub NoSlash : Text → Type 0
NoSlash = All (λ c. c ≢ slash)

NoSlash-get : (t : Text) (i : ℕ) → NoSlash t → get_or t i 0 ≢ slash
NoSlash-get [] i h = omega arith
NoSlash-get (c ∷ t) zero h = h.0
NoSlash-get (c ∷ t) (suc i) h = NoSlash-get t i h.1

back_to_slash-stops :
    (path : Text) (k n : ℕ)
    → get_or path k 0 ≡ slash
    → k < n
    → ((j : ℕ) → k < j → get_or path j 0 ≢ slash)
    → back_to_slash path n ≡ k
unfolding back_to_slash
back_to_slash-stops path k zero e lt after = elim lt [ ]
back_to_slash-stops path k (suc n) e lt after = elim (dec_lt k n) [
  | yes more ↦
      rw (==_of_ne (get_or path n 0) slash (after n more))
        (back_to_slash-stops path k n e more after)
  | no stop ↦ let same : n ≡ k = omega arith in rw (same, e)
]

back_to_slash-none : (path : Text) (n : ℕ) → NoSlash path → back_to_slash path n ≡ 0
unfolding back_to_slash
back_to_slash-none path zero h = refl
back_to_slash-none path (suc n) h =
    rw (==_of_ne (get_or path n 0) slash (NoSlash-get path n h)) (back_to_slash-none path n h)

back_to_slash-append :
    (pre last : Text)
    → NoSlash last
    → back_to_slash (pre ++ slash ∷ last) (length (pre ++ slash ∷ last)) ≡ length pre
back_to_slash-append pre last h =
    back_to_slash-stops path (length pre) (length path)
      (ap (λ n. get_or path n 0) (omega arith) ∙ get_or-append pre (slash ∷ last) 0 0)
      (omega (arith, length-append pre (slash ∷ last))) later
  where
    path : Text
    path = pre ++ slash ∷ last

    later : (j : ℕ) → length pre < j → get_or path j 0 ≢ slash
    later j lt =
        let i : ℕ = j - length pre - 1 in
        let same : j ≡ length pre + suc i = omega arith in
        subst (λ k. get_or path k 0 ≢ slash) (sym same)
          (subst (λ c. c ≢ slash) (sym (get_or-append pre (slash ∷ last) (suc i) 0))
            (NoSlash-get last i h))

-- The suffix begins with the last slash of the path, and is the whole path if it has none.
pub find_suffix-eq :
    (pre last : Text)
    → NoSlash last
    → (find_suffix (pre ++ slash ∷ last) ≡ slash ∷ last) × (find_suffix last ≡ last)
unfolding find_suffix
find_suffix-eq pre last h = (
  rw (back_to_slash-append pre last h) (drop-append pre (slash ∷ last)),
  rw (back_to_slash-none last (length last) h),
)

NoSlash-append : (s t : Text) → NoSlash s → NoSlash t → NoSlash (s ++ t)
NoSlash-append [] t p q = q
NoSlash-append (c ∷ s) t p q = (p.0, NoSlash-append s t p.1 q)

-- The path by which the zones of a package are counted and the path by which they are read are the
-- directory of the package and the same rest, but in the path of the count a second slash stands
-- between the two.
numbered_name-slashes :
    (dec : ℕ → Text) (pkg zone : ℕ)
    → NoSlash (dec pkg)
    → (rest : Text) × (numbered_name dec (zones_prefix dec (package_directory dec pkg)) zone
        ≡ package_directory dec pkg ++ slash ∷ slash ∷ rest)
      × (zone_directory dec (package_directory dec pkg) pkg zone ++ codes "/name"
          ≡ package_directory dec pkg ++ slash ∷ rest)
numbered_name-slashes dec pkg zone h =
    let suffix : find_suffix (package_directory dec pkg) ≡ codes "/intel-rapl:" ++ dec pkg =
      (find_suffix-eq (codes "/sys/devices/virtual/powercap/intel-rapl")
        (codes "intel-rapl:" ++ dec pkg)
        (NoSlash-append (codes "intel-rapl:") (dec pkg) (omega arith) h)).0 in
    (
      codes "intel-rapl:" ++ (dec pkg ++ (codes ":" ++ (dec zone ++ codes "/name"))),
      rw suffix (simp append_assoc),
      simp append_assoc,
    )
