-- ===== src/Parser/File/Laws.antt =====
-- Which credentials a file stands for.
use pigate.Prelude.{
  ℕ, zero, suc, ◌<◌, ◌≡◌, refl, ◌≢◌, pos, ap, ◌∙◌, String, Bool, true, false, Option, none, some,
  List, [], ◌∷◌, ◌++◌, arith, returns, ◌==◌, string_eq, contains, get_elem?, length, if◌then◌else◌,
  All, All-append,
}
use mathlib.Core.Option.{or_else}
use pigate.Database.Models.{Credential, regular_open}
use pigate.Database.Table.{find, NodupKeys}
use pigate.Database.Credentials.{code_of}
use pigate.Parser.Text.{trim_space, trim_space_idem}
use pigate.Parser.File.{Entries, add_row, add_rows}

abbrev pub get_or : List String → ℕ → String
get_or [] i = ""
get_or (x ∷ xs) zero = x
get_or (x ∷ xs) (suc i) = get_or xs i

get_elem?-get_or : (xs : List String) (i : ℕ) → i < length xs → get_elem? xs i ≡ some (get_or xs i)
get_elem?-get_or [] i h = absurd (omega arith)
get_elem?-get_or (x ∷ xs) zero h = refl
get_elem?-get_or (x ∷ xs) (suc i) h = get_elem?-get_or xs i (omega arith)

find-append :
    (k : String) (xs ys : List Credential)
    → find code_of k (xs ++ ys) ≡ or_else (find code_of k xs) (find code_of k ys)
unfolding find or_else
find-append k [] ys = refl
find-append k (x ∷ xs) ys = ground (arith, find-append k xs ys)

append-NodupKeys :
    (es : List Credential) (e : Credential)
    → NodupKeys code_of es
    → find code_of e.code es ≡ none
    → NodupKeys code_of (es ++ e ∷ [])
unfolding find or_else
append-NodupKeys [] e u fresh = (refl, tt)
append-NodupKeys (x ∷ es) e (new, u) fresh =
    ground (arith, append-NodupKeys es e u, find-append x.code es (e ∷ []))

abbrev pub is_some : Option Credential → Bool
is_some none = false
is_some (some e) = true

-- What every entry of a file has: its code is trimmed and not empty, and it is marked as coming
-- from the feed, in the default group, with a regular opening.
pub record FromFeed (e : Credential) : Type 0 where
  pub not_empty : e.code ≢ ""
  pub trimmed : trim_space e.code ≡ e.code
  pub automatic : e.auto_update ≡ true
  pub group : e.access_group ≡ pos 0
  pub mode : e.open_mode ≡ regular_open

module _ (u c l : ℕ) where
  -- The three columns exist in the row.
  pub record IsWide (row : List String) : Type 0 where
    pub username_in : u < length row
    pub code_in : c < length row
    pub lock_in : l < length row

  abbrev pub code_in_row : List String → String
  code_in_row row = trim_space (get_or row c)

  -- The credential of a row: its code without the blanks around it, its user name as it stands, and
  -- locked out exactly where the lock column holds "00".
  abbrev pub entry_in_row : List String → Credential
  entry_in_row row = record {
    code = code_in_row row;
    username = get_or row u;
    access_group = pos 0;
    locked_out = get_or row l == "00";
    auto_update = true;
    open_mode = regular_open;
  }

  -- The entry of the first row that has a code.
  unfoldable pub first_row : String → List (List String) → Option Credential
  first_row k [] = none
  first_row k (row ∷ rows) =
      if code_in_row row == k then some (entry_in_row row) else first_row k rows

  -- The entries so far are those of the codes that were seen.
  pub record Agree (p : Entries) : Type 0 where
    pub same : (k : String) → contains p.seen k ≡ is_some (find code_of k p.entries)
    pub distinct : NodupKeys code_of p.entries
    pub no_empty : find code_of "" p.entries ≡ none
    pub feed : All FromFeed p.entries

  add_row-eq :
      (row : List String) (p : Entries)
      → IsWide row
      → add_row u c l row p
        ≡ returns (
            if code_in_row row == ""
            then p
            else if contains p.seen (code_in_row row)
            then p
            else record {
              seen = code_in_row row ∷ p.seen;
              entries = p.entries ++ entry_in_row row ∷ [];
            })
  unfolding add_row
  add_row-eq row p w = ground (
    arith,
    get_elem?-get_or row c w.code_in,
    get_elem?-get_or row u w.username_in,
    get_elem?-get_or row l w.lock_in,
  )

  abbrev noted : List String → Entries → Entries
  noted row p =
      if code_in_row row == ""
      then p
      else if contains p.seen (code_in_row row)
      then p
      else record { seen = code_in_row row ∷ p.seen; entries = p.entries ++ entry_in_row row ∷ [] }

  abbrev offered : String → List String → Option Credential
  offered k row =
      if k == "" then none else if code_in_row row == k then some (entry_in_row row) else none

  entry_in_row-FromFeed : (row : List String) → code_in_row row ≢ "" → FromFeed (entry_in_row row)
  entry_in_row-FromFeed row h = record {
    not_empty = h;
    trimmed = trim_space_idem (get_or row c);
    automatic = refl;
    group = refl;
    mode = refl;
  }

  find-noted :
      (k : String) (row : List String) (p : Entries)
      → Agree p
      → find code_of k (noted row p).entries ≡ or_else (find code_of k p.entries) (offered k row)
  unfolding find or_else
  find-noted k row p a =
      ground (
        arith,
        a.same (code_in_row row),
        a.no_empty,
        find-append k p.entries (entry_in_row row ∷ []),
      )

  noted-Agree : (row : List String) (p : Entries) → Agree p → Agree (noted row p)
  unfolding find or_else
  noted-Agree row p a = record {
    same = λ k. ground (arith, a.same k, find-append k p.entries (entry_in_row row ∷ []));
    distinct = ground (
      arith,
      a,
      a.same (code_in_row row),
      append-NodupKeys p.entries (entry_in_row row) a.distinct,
    );
    no_empty = ground (arith, a.no_empty, find-append "" p.entries (entry_in_row row ∷ []));
    feed = ground (
      arith,
      a.feed,
      entry_in_row-FromFeed row,
      All-append FromFeed p.entries (entry_in_row row ∷ []) a.feed,
    );
  }

  abbrev pub from_row : String → List (List String) → Option Credential
  from_row k rows = if k == "" then none else first_row k rows

  add_rows_step :
      (row : List String) (rows : List (List String)) (p : Entries)
      → IsWide row
      → add_rows u c l (row ∷ rows) p ≡ add_rows u c l rows (noted row p)
  unfolding add_rows
  add_rows_step row rows p w = rw (add_rows, add_row-eq row p w)

  or_else-offered :
      (o : Option Credential) (k : String) (row : List String) (rows : List (List String))
      → or_else (or_else o (offered k row)) (from_row k rows) ≡ or_else o (from_row k (row ∷ rows))
  unfolding or_else first_row
  or_else-offered o k row rows = ground arith

  -- The loop over rows that are wide enough does not panic, and adds to the entries the first row
  -- of every code that has none yet.
  pub record Added (rows : List (List String)) (p : Entries) : Type 0 where
    pub result : Entries
    pub runs : add_rows u c l rows p ≡ returns result
    pub agree : Agree result
    pub finds :
        (k : String)
        → find code_of k result.entries ≡ or_else (find code_of k p.entries) (from_row k rows)

  pub add_rows-Added :
      (rows : List (List String)) (p : Entries) → All IsWide rows → Agree p → Added rows p
  unfolding first_row
  add_rows-Added [] p w a = record {
    result = p;
    runs = unfold add_rows in refl;
    agree = a;
    finds = λ k. unfold or_else in ground arith;
  }
  add_rows-Added (row ∷ rows) p (wide, w) a =
      let rest = add_rows-Added rows (noted row p) w (noted-Agree row p a) in
      record {
        result = rest.result;
        runs = add_rows_step row rows p wide ∙ rest.runs;
        agree = rest.agree;
        finds = λ k.
            rest.finds k
            ∙ ap (λ o. or_else o (from_row k rows)) (find-noted k row p a)
            ∙ or_else-offered (find code_of k p.entries) k row rows;
      }
