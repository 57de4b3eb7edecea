-- ===== src/Parser/Sync/Twice.antt =====
-- Two files, one after the other.
use pigate.Prelude.{
  ℕ, ◌≡◌, refl, ap, sym, ◌∙◌, String, Option, none, some, List, ◌∷◌, arith, Result, ok, returns,
  string_eq, if◌then◌else◌,
}
use mathlib.Core.Option.{or_else}
use pigate.Database.Models.{Credential, AccessTime}
use pigate.Database.Table.{find}
use pigate.Database.Credentials.{Tables, code_of}
use pigate.Database.Credentials.Quiet.{calm}
use pigate.Parser.File.{no_columns, find_columns}
use pigate.Parser.File.Laws.{from_row}
use pigate.Parser.File.Credentials.{IsRectangular}
use pigate.Parser.Sync.{handle_file}
use pigate.Parser.Sync.Effect.{manual, is_some}
use pigate.Parser.Sync.EndToEnd.{IsSound, Handled, handle_file_lem}

-- A remote credential that does not come from the feed is kept, unless the first file has its code.
abbrev pub not_replaced : Option Credential → Option Credential → Option Credential
not_replaced row old = if is_some row then none else manual old

-- What two files leave in the remote database.
pub record HandledTwice (first second : Result (List (List String))) (t : Tables AccessTime)
    (row1 row2 : String → Option Credential) : Type 0 where
  pub between : Tables AccessTime
  pub after : Tables AccessTime
  pub first_result : handle_file first (calm t) ≡ returns (ok tt, calm between)
  pub second_result : handle_file second (calm between) ≡ returns (ok tt, calm after)
  pub finds :
      (k : String)
      → find code_of k after.credentials
        ≡ or_else (row2 k) (not_replaced (row1 k) (find code_of k t.credentials))

manual-or_else :
    (row old : Option Credential)
    → manual row ≡ none
    → manual (or_else row (manual old)) ≡ not_replaced row old
unfolding or_else
manual-or_else none none h = refl
manual-or_else none (some c) h = ground arith
manual-or_else (some r) old h = h

finds_twice :
    (first second : Result (List (List String))) (t : Tables AccessTime)
    (row1 row2 : String → Option Credential) (h : Handled first t row1)
    (g : Handled second h.after row2) (k : String)
    → find code_of k g.after.credentials
      ≡ or_else (row2 k) (not_replaced (row1 k) (find code_of k t.credentials))
finds_twice first second t row1 row2 h g k =
    g.finds k
    ∙ ap (λ o. or_else (row2 k) (manual o)) (h.finds k)
    ∙ ap (or_else (row2 k)) (manual-or_else (row1 k) (find code_of k t.credentials) (h.from_feed k))

handled_twice :
    (first second : Result (List (List String))) (t : Tables AccessTime)
    (row1 row2 : String → Option Credential) (h : Handled first t row1)
    → Handled second h.after row2
    → HandledTwice first second t row1 row2
handled_twice first second t row1 row2 h g = record {
  between = h.after;
  after = g.after;
  first_result = h.result;
  second_result = g.result;
  finds = finds_twice first second t row1 row2 h g;
}

-- With no failing call and a sound remote database, two files with the three columns, and records as long
-- as their headers, are handled one after the other without an error. Afterwards a code of the second file
-- has the credential of its first row there; of the other codes, those of the first file are gone, also where
-- it had replaced a credential that does not come from the feed; and such a credential is kept under
-- every code that neither file has.
pub handle_file-handle_file :
    (header1 header2 first1 first2 : List String) (rows1 rows2 : List (List String))
    (u1 c1 l1 u2 c2 l2 : ℕ) (t : Tables AccessTime)
    → find_columns 0 header1 no_columns
      ≡ record { username = some u1; code = some c1; locked_out = some l1 }
    → find_columns 0 header2 no_columns
      ≡ record { username = some u2; code = some c2; locked_out = some l2 }
    → IsRectangular header1 (first1 ∷ rows1)
    → IsRectangular header2 (first2 ∷ rows2)
    → IsSound t.credentials
    → HandledTwice
        (ok (header1 ∷ first1 ∷ rows1))
        (ok (header2 ∷ first2 ∷ rows2))
        t
        (λ k. from_row u1 c1 l1 k (first1 ∷ rows1))
        (λ k. from_row u2 c2 l2 k (first2 ∷ rows2))
handle_file-handle_file header1 header2 first1 first2 rows1 rows2 u1 c1 l1 u2 c2 l2 t found1 found2
      wide1 wide2 s =
    let h = handle_file_lem header1 first1 rows1 u1 c1 l1 t found1 wide1 s in
    handled_twice _ _ t _ _ h
      (handle_file_lem header2 first2 rows2 u2 c2 l2 h.after found2 wide2 h.sound)

or_else_again :
    (row old : Option Credential) → or_else row (not_replaced row old) ≡ or_else row (manual old)
unfolding or_else
or_else_again none old = refl
or_else_again (some r) old = refl

-- The same file once more changes no credential: what the events of one change of a file start.
pub handle_file_idem :
    (read : Result (List (List String))) (t : Tables AccessTime) (row : String → Option Credential)
    (h : Handled read t row) (g : Handled read h.after row) (k : String)
    → find code_of k g.after.credentials ≡ find code_of k h.after.credentials
handle_file_idem read t row h g k =
    finds_twice read read t row row h g k
    ∙ or_else_again (row k) (find code_of k t.credentials)
    ∙ sym (h.finds k)
