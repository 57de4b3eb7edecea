-- ===== src/Status/Commands.antt =====
-- pigate/cmd/statusserver/main.go, `normalizeCommand`.
pub mod Meaning
use pigate.Prelude.{
  ℕ, ◌+◌, String, Bool, true, false, ◌&&◌, ◌||◌, List, [], ◌∷◌, map, codes, text, Result, ok, err,
  leb, eqb, if◌then◌else◌,
}
use pigate.Messenger.Messages.{
  command_open_message, command_hold_open_message, command_close_message,
}
use pigate.Parser.Text.{trim_space}

-- `unicode.ToLower`, as far as its result is ASCII: the Latin capitals, the Kelvin sign, and the
-- dotted capital I. Any other character stays outside of ASCII, and so occurs in no command.
abbrev pub lower : ℕ → ℕ
lower c =
    if leb 65 c && leb c 90
    then c + 32
    else if eqb c 0x212A
    then 107
    else if eqb c 0x130
    then 105
    else c

unfoldable pub same_codes : List ℕ → List ℕ → Bool
same_codes [] [] = true
same_codes (x ∷ xs) (y ∷ ys) = eqb x y && same_codes xs ys
same_codes _ _ = false

-- The command as the page shows it, and as it is published.
unfoldable pub normalize_command : String → Result (String × String)
unfolding same_codes
normalize_command command =
    let word = map lower (codes (trim_space command)) in
    if same_codes word (codes "open")
    then ok ("open", command_open_message)
    else if same_codes word (codes "lock_open")
        || same_codes word (codes "locked_open")
        || same_codes word (codes "hold_open")
    then ok ("lock_open", command_hold_open_message)
    else if same_codes word (codes "close")
    then ok ("close", command_close_message)
    else err (text "command must be open, lock_open, or close")
