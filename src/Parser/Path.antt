-- ===== src/Parser/Path.antt =====
-- `filepath.Ext`, as filewatcher.go and paser.go use it. A path is its code points. What separates the
-- elements of a path depends on the system, and is a parameter: on every system the letters and the
-- dot do not.
use pigate.Prelude.{
  ℕ, ◌<◌, ◌≡◌, refl, sym, ap, ◌∙◌, ◌↔◌, ◌⊎◌, inl, Bool, true, false, ◌&&◌, List, [], ◌∷◌, ◌++◌,
  arith, eqb, if◌then◌else◌, length,
}
use mathlib.Core.List.{reverse, reverse-append, reverse-reverse}

abbrev pub FilePath : Type 0
FilePath = List ℕ

unfoldable pub same_text : List ℕ → List ℕ → Bool
same_text [] [] = true
same_text (x ∷ xs) (y ∷ ys) = eqb x y && same_text xs ys
same_text _ _ = false

abbrev pub txt : List ℕ
txt = 46 ∷ 116 ∷ 120 ∷ 116 ∷ []

same_text_sound : (xs ys : List ℕ) → same_text xs ys ≡ true → xs ≡ ys
unfolding same_text
same_text_sound [] [] h = refl
same_text_sound [] (y ∷ ys) h = cc
same_text_sound (x ∷ xs) [] h = cc
same_text_sound (x ∷ xs) (y ∷ ys) h = ground (arith, same_text_sound xs ys)

module _ (is_separator : ℕ → Bool) where
  -- From the end of the path backwards to a dot; `tail` is what was passed.
  unfoldable pub ext_from : List ℕ → List ℕ → List ℕ
  ext_from [] tail = []
  ext_from (c ∷ before) tail =
      let rest = ext_from before (c ∷ tail) in
      if is_separator c then [] else if eqb c 46 then c ∷ tail else rest

  unfoldable pub ext : FilePath → List ℕ
  ext path = ext_from (reverse path) []

  -- `filepath.Ext(path) == ".txt"`.
  unfoldable pub is_text_file : FilePath → Bool
  is_text_file path = same_text (ext path) txt

  ext_from_long :
      (before tail : List ℕ)
      → (ext_from before tail ≡ []) ⊎ (length tail < length (ext_from before tail))
  unfolding ext_from
  ext_from_long [] tail = inl refl
  ext_from_long (c ∷ before) tail = ground (arith, ext_from_long before (c ∷ tail))

  backwards :
      (r : List ℕ) → ext_from r [] ≡ txt → (rest : List ℕ) × (r ≡ 116 ∷ 120 ∷ 116 ∷ 46 ∷ rest)
  unfolding ext_from
  backwards [] h = absurd (cc)
  backwards (a ∷ []) h = absurd (ground arith)
  backwards (a ∷ b ∷ []) h = absurd (ground arith)
  backwards (a ∷ b ∷ c ∷ []) h = absurd (ground arith)
  backwards (a ∷ b ∷ c ∷ d ∷ rest) h =
      (rest, ground (arith, ext_from_long rest (d ∷ c ∷ b ∷ a ∷ [])))

-- What is no separator on any system.
pub record IsPlain (is_separator : ℕ → Bool) : Type 0 where
  pub dot : is_separator 46 ≡ false
  pub t : is_separator 116 ≡ false
  pub x : is_separator 120 ≡ false

-- The extension of a path is `.txt` exactly when the path ends in `.txt`.
pub is_text_file_lem :
    (is_separator : ℕ → Bool) (path : FilePath)
    → IsPlain is_separator
    → (is_text_file is_separator path ≡ true) ↔ ((base : FilePath) × (path ≡ base ++ txt))
unfolding is_text_file ext
is_text_file_lem is_separator path plain = (ends, begins)
  where
    ends : is_text_file is_separator path ≡ true → (base : FilePath) × (path ≡ base ++ txt)
    ends h =
        let (rest, same) =
          backwards is_separator (reverse path) (same_text_sound (ext is_separator path) txt h) in
        (
          reverse rest,
          sym (reverse-reverse path)
              ∙ ap reverse same
              ∙ reverse-append (116 ∷ 120 ∷ 116 ∷ 46 ∷ []) rest,
        )

    begins : (base : FilePath) × (path ≡ base ++ txt) → is_text_file is_separator path ≡ true
    begins (base, same) =
        rw (same, reverse-append base txt)
          (unfold ext_from same_text in rw (plain.dot, plain.t, plain.x))
