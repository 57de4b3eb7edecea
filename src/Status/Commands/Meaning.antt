-- ===== src/Status/Commands/Meaning.antt =====
-- Which texts are commands, and which command each of them is.
use pigate.Prelude.{
  ℕ, ◌≡◌, ◌≢◌, refl, ◌⊎◌, String, true, false, List, [], ◌∷◌, map, codes, arith, ok, err, Error,
}
use pigate.Parser.Text.{trim_space}
use pigate.Status.Commands.{lower, same_codes, normalize_command}

-- The text reads as a word: without the blanks around it, and in lower case, it is the word.
abbrev pub Reads : String → String → Type 0
Reads raw word = map lower (codes (trim_space raw)) ≡ codes word

-- What a text means: the command that the page shows, and the payload that is published.
abbrev pub Means : String → String → String → Type 0
Means raw command payload =
    (Reads raw "open" × (command ≡ "open") × (payload ≡ "open"))
    ⊎ (((Reads raw "lock_open" ⊎ (Reads raw "locked_open" ⊎ Reads raw "hold_open"))
          × (command ≡ "lock_open")
          × (payload ≡ "hold_open"))
        ⊎ (Reads raw "close" × (command ≡ "close") × (payload ≡ "close")))

-- The text reads as none of the five words.
pub record MeansNothing (raw : String) : Type 0 where
  pub no_open : map lower (codes (trim_space raw)) ≢ codes "open"
  pub no_lock_open : map lower (codes (trim_space raw)) ≢ codes "lock_open"
  pub no_locked_open : map lower (codes (trim_space raw)) ≢ codes "locked_open"
  pub no_hold_open : map lower (codes (trim_space raw)) ≢ codes "hold_open"
  pub no_close : map lower (codes (trim_space raw)) ≢ codes "close"

same_codes-eq : (xs ys : List ℕ) → same_codes xs ys ≡ true → xs ≡ ys
unfolding same_codes
same_codes-eq [] [] h = refl
same_codes-eq [] (y ∷ ys) h = absurd (cc)
same_codes-eq (x ∷ xs) [] h = absurd (cc)
same_codes-eq (x ∷ xs) (y ∷ ys) h = ground (arith, same_codes-eq xs ys)

same_codes-ne : (xs ys : List ℕ) → same_codes xs ys ≡ false → xs ≢ ys
unfolding same_codes
same_codes-ne [] [] h q = absurd (cc)
same_codes-ne [] (y ∷ ys) h q = absurd (cc)
same_codes-ne (x ∷ xs) [] h q = absurd (cc)
same_codes-ne (x ∷ xs) (y ∷ ys) h q = ground (arith, same_codes-ne xs ys)

module _ (raw : String) where
  pub normalize_command-Means :
      (command payload : String)
      → normalize_command raw ≡ ok (command, payload)
      → Means raw command payload
  unfolding normalize_command
  normalize_command-Means command payload h =
      let w = map lower (codes (trim_space raw)) in
      ground (
        arith,
        same_codes-eq w (codes "open"),
        same_codes-eq w (codes "lock_open"),
        same_codes-eq w (codes "locked_open"),
        same_codes-eq w (codes "hold_open"),
        same_codes-eq w (codes "close"),
      )

  pub normalize_command-MeansNothing :
      (e : Error) → normalize_command raw ≡ err e → MeansNothing raw
  unfolding normalize_command
  normalize_command-MeansNothing e h =
      let w = map lower (codes (trim_space raw)) in
      record {
        no_open = same_codes-ne w (codes "open") (ground arith);
        no_lock_open = same_codes-ne w (codes "lock_open") (ground arith);
        no_locked_open = same_codes-ne w (codes "locked_open") (ground arith);
        no_hold_open = same_codes-ne w (codes "hold_open") (ground arith);
        no_close = same_codes-ne w (codes "close") (ground arith);
      }
