-- ===== src/Parser/Find/Laws.antt =====
-- Which file is found.
use pigate.Prelude.{
  ℕ, ◌≡◌, refl, sym, ap, ◌∙◌, ◌⊎◌, inl, inr, Bool, true, false, List, [], ◌∷◌, ◌++◌, append_assoc,
  arith, Error, service, wrapped, ok, err, All, All-append, Bool-cases, is_nil,
}
use pigate.Parser.Path.{FilePath, is_text_file, IsPlain, is_text_file_lem, txt}
use pigate.Parser.Find.{
  Node, file, unreadable, directory, Entries, nil, cons, Walk, goes_on, found, broken,
  or_else_go_on, visit, walk, walk_entries, not_found, find_text_file,
}

-- What is met below a path, in order: files, and directories that cannot be read.
pub data Met : Type 0 where
  a_file : FilePath → Met
  no_access : Met

Walk-cases :
    (w : Walk) → (w ≡ goes_on) ⊎ (((p : FilePath) × (w ≡ found p)) ⊎ ((e : Error) × (w ≡ broken e)))
Walk-cases goes_on = inl refl
Walk-cases (found p) = inr (inl (p, refl))
Walk-cases (broken e) = inr (inr (e, refl))

module _ (is_separator : ℕ → Bool) (join : FilePath → FilePath → FilePath) where
  mutual
    pub met : FilePath → Node → List Met
    met path file = a_file path ∷ []
    met path unreadable = no_access ∷ []
    met path (directory entries) = met_entries path entries

    pub met_entries : FilePath → Entries → List Met
    met_entries path nil = []
    met_entries path (cons name node entries) =
        met (join path name) node ++ met_entries path entries

  -- A file that is passed over.
  abbrev pub IsPassed : Met → Type 0
  IsPassed (a_file path) = is_text_file is_separator path ≡ false
  IsPassed no_access = ⊥

  -- What the walk over some of these comes back with.
  abbrev pub Explains : List Met → Walk → Type 0
  Explains mets goes_on = All IsPassed mets
  Explains mets (found path) =
      (before : List Met) × (after : List Met) × (mets ≡ before ++ a_file path ∷ after)
      × All IsPassed before
      × (is_text_file is_separator path ≡ true)
  Explains mets (broken e) =
      (before : List Met) × (after : List Met) × (mets ≡ before ++ no_access ∷ after)
      × All IsPassed before
      × (e ≡ service)

  later : (xs ys : List Met) (w : Walk) → All IsPassed xs → Explains ys w → Explains (xs ++ ys) w
  later xs ys goes_on p h = All-append IsPassed xs ys p h
  later xs ys (found path) p (before, after, split, passed, is_text) = (
    xs ++ before,
    after,
    ap (λ l. xs ++ l) split ∙ sym (append_assoc xs before (a_file path ∷ after)),
    All-append IsPassed xs before p passed,
    is_text,
  )
  later xs ys (broken e) p (before, after, split, passed, same) = (
    xs ++ before,
    after,
    ap (λ l. xs ++ l) split ∙ sym (append_assoc xs before (no_access ∷ after)),
    All-append IsPassed xs before p passed,
    same,
  )

  Explains-append :
      (xs ys : List Met) (v w : Walk)
      → Explains xs v
      → Explains ys w
      → Explains (xs ++ ys) (or_else_go_on v w)
  Explains-append xs ys goes_on w h k = later xs ys w h k
  Explains-append xs ys (found path) w (before, after, split, passed, is_text) k = (
    before,
    after ++ ys,
    ap (λ l. l ++ ys) split ∙ append_assoc before (a_file path ∷ after) ys,
    passed,
    is_text,
  )
  Explains-append xs ys (broken e) w (before, after, split, passed, same) k = (
    before,
    after ++ ys,
    ap (λ l. l ++ ys) split ∙ append_assoc before (no_access ∷ after) ys,
    passed,
    same,
  )

  a_file-visit : (path : FilePath) → Explains (a_file path ∷ []) (visit is_separator path false)
  unfolding visit
  a_file-visit path = elim (Bool-cases (is_text_file is_separator path)) [
    | inl is_text ↦ rw is_text ([], [], refl, tt, is_text)
    | inr other ↦ rw other (other, tt)
  ]

  mutual
    unfolding walk met visit

    met-walk :
        (path : FilePath) (node : Node)
        → Explains (met path node) (walk is_separator join path node)
    met-walk path file = a_file-visit path
    met-walk path unreadable = ([], [], refl, tt, refl)
    met-walk path (directory entries) = met_entries-walk_entries path entries

    met_entries-walk_entries :
        (path : FilePath) (entries : Entries)
        → Explains (met_entries path entries) (walk_entries is_separator join path entries)
    met_entries-walk_entries path nil = tt
    met_entries-walk_entries path (cons name node entries) =
        Explains-append (met (join path name) node) (met_entries path entries)
          (walk is_separator join (join path name) node)
          (walk_entries is_separator join path entries) (met-walk (join path name) node)
          (met_entries-walk_entries path entries)

  -- The name of a text file is not empty.
  not_empty :
      (path : FilePath)
      → IsPlain is_separator
      → is_text_file is_separator path ≡ true
      → is_nil path ≡ false
  not_empty [] plain h =
      let (base, same) = (is_text_file_lem is_separator [] plain).0 h in absurd (no_end base same)
    where
      no_end : (base : FilePath) → [] ≡ base ++ txt → ⊥
      no_end [] same = cc
      no_end (c ∷ base) same = cc
  not_empty (c ∷ path) plain h = refl

  -- For a path that is a directory, on a system where neither the dot nor `t` or `x` separates
  -- the elements of a path, `FindTextFile` returns one of three results. A path without an error
  -- is the first text file that is met, and every directory before it could be read; that none
  -- was found is returned when every directory could be read and no text file is met; the error
  -- of a directory that cannot be read is returned when no text file is met before it.
  pub find_text_file_lem :
      (path : FilePath) (node : Node)
      → IsPlain is_separator
      → let mets = met path node in
        let r = find_text_file is_separator join path (ok true) (ok node) in
        ((p : FilePath) × (r ≡ ok p) × Explains mets (found p))
        ⊎ (((r ≡ err (wrapped "in" not_found)) × All IsPassed mets)
            ⊎ ((e : Error) × (r ≡ err (wrapped "error searching for .txt file" e))
                × Explains mets (broken e)))
  unfolding find_text_file
  find_text_file_lem path node plain = elim (Walk-cases (walk is_separator join path node)) [
    | inl none_found ↦ inr (inl (ground arith, rw none_found at (met-walk path node)))
    | inr (inl (p, first)) ↦
        let why : Explains (met path node) (found p) = rw first at (met-walk path node) in
        let named = not_empty p plain why.4 in inl (p, ground arith, why)
    | inr (inr (e, stopped)) ↦ inr (inr (e, ground arith, rw stopped at (met-walk path node)))
  ]
