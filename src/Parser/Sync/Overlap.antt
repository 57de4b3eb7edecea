-- ===== src/Parser/Sync/Overlap.antt =====
-- `HandleFile` in two goroutines at once, as the events of one change of a file start it: the calls to the
-- remote database of the two are mixed in any order. No call fails.
use pigate.Prelude.{
  ◌≡◌, refl, sym, ap, ◌∙◌, ◌⊎◌, inl, inr, String, Bool, true, false, Option, none, some, List, [],
  ◌∷◌, arith, string_eq, if◌then◌else◌, Option-cases, subst, map, All, ok,
}
use mathlib.Core.Option.{or_else}
use pigate.Database.Models.{Credential, AccessTime}
use pigate.Database.Table.{
  find, upsert, upsert_all, NodupKeys, find-upsert, find-delete_any, upsert-NodupKeys,
  delete_any-NodupKeys,
}
use pigate.Database.Credentials.{Tables, code_of, allowed}
use pigate.Database.Credentials.Laws.{removed, stored}
use pigate.Database.Credentials.Quiet.{calm}
use pigate.Parser.Sync.{sync_file}
use pigate.Parser.Sync.Effect.{
  manual, is_some, automatic, old_codes, contains-old_codes, sync_file_quiet, find-sync_file,
}

-- Where a goroutine is: before `GetCredentials`, between it and `DeleteCredentials`, or in the loop of
-- `PutCredentials` with some credentials left.
pub data Phase : Type 0 where
  begins : Phase
  has_read : Tables AccessTime → Phase
  puts : List Credential → Phase

module _ (creds : List Credential) where
  -- The next call of a goroutine.
  unfoldable pub move : Phase → Tables AccessTime → Phase × Tables AccessTime
  move begins t = (has_read t, t)
  move (has_read seen) t = (puts creds, removed (old_codes creds seen) t)
  move (puts []) t = (puts [], t)
  move (puts (c ∷ rest)) t = (puts rest, record t { credentials = upsert code_of c t.credentials })

  -- `true` stands for a call of the first goroutine, `false` for one of the second.
  unfoldable pub overlap :
      List Bool → Phase → Phase → Tables AccessTime → (Phase × Phase) × Tables AccessTime
  overlap [] p q t = ((p, q), t)
  overlap (true ∷ turns) p q t = let (p', t') = move p t in overlap turns p' q t'
  overlap (false ∷ turns) p q t = let (q', t') = move q t in overlap turns p q' t'

  module _ (k : String) (w : Option Credential) (Ready : Phase → Option Credential → Type 0) where
    abbrev at_k : Tables AccessTime → Option Credential
    at_k t = find code_of k t.credentials

    -- A call leaves the credential as it was, or makes it what it shall be.
    record Advances (p : Phase) (t : Tables AccessTime) : Type 0 where
      distinct : NodupKeys code_of (move p t).1.credentials
      ready : Ready (move p t).0 (at_k (move p t).1)
      change : (at_k (move p t).1 ≡ at_k t) ⊎ (at_k (move p t).1 ≡ w)

    record Both (s : (Phase × Phase) × Tables AccessTime) : Type 0 where
      distinct : NodupKeys code_of s.1.credentials
      first : Ready s.0.0 (at_k s.1)
      second : Ready s.0.1 (at_k s.1)

    module _
        (stable : (p : Phase) (v v' : Option Credential)
          → Ready p v
          → ((v' ≡ v) ⊎ (v' ≡ w))
          → Ready p v')
        (advance : (p : Phase) (t : Tables AccessTime)
          → NodupKeys code_of t.credentials
          → Ready p (at_k t)
          → Advances p t) where
      overlap-Both :
          (turns : List Bool) (p q : Phase) (t : Tables AccessTime)
          → Both ((p, q), t)
          → Both (overlap turns p q t)
      unfolding overlap
      overlap-Both [] p q t b = b
      overlap-Both (true ∷ turns) p q t b =
          let a = advance p t b.distinct b.first in
          overlap-Both turns _ q _ (record {
            distinct = a.distinct;
            first = a.ready;
            second = stable q _ _ b.second a.change;
          })
      overlap-Both (false ∷ turns) p q t b =
          let a = advance q t b.distinct b.second in
          overlap-Both turns p _ _ (record {
            distinct = a.distinct;
            first = stable p _ _ b.first a.change;
            second = a.ready;
          })

-- A code of the file.
module _ (creds : List Credential) (k : String) (r : Credential) where
  ReadyIn : Phase → Option Credential → Type 0
  ReadyIn begins v = Unit
  ReadyIn (has_read seen) v = NodupKeys code_of seen.credentials
  ReadyIn (puts rest) v =
      NodupKeys code_of rest
      × ((find code_of k rest ≡ some r) ⊎ ((find code_of k rest ≡ none) × (v ≡ some r)))

  stable_in :
      (p : Phase) (v v' : Option Credential) → ReadyIn p v → (v' ≡ v) ⊎ (v' ≡ some r) → ReadyIn p v'
  unfolding ReadyIn
  stable_in begins v v' h c = tt
  stable_in (has_read seen) v v' h c = h
  stable_in (puts rest) v v' (u, inl waits) c = (u, inl waits)
  stable_in (puts rest) v v' (u, inr (gone, is)) c = (u, inr (gone, ground (arith, c)))

  advance_in :
      (p : Phase) (t : Tables AccessTime)
      → NodupKeys code_of creds
      → find code_of k creds ≡ some r
      → NodupKeys code_of t.credentials
      → ReadyIn p (find code_of k t.credentials)
      → Advances creds k (some r) ReadyIn p t
  unfolding move ReadyIn
  advance_in begins t uc row ut h = record { distinct = ut; ready = ut; change = inl refl }
  advance_in (has_read seen) t uc row ut h = record {
    distinct = delete_any-NodupKeys code_of (old_codes creds seen) t.credentials ut;
    ready = (uc, inl row);
    change = ground (
      arith,
      find-delete_any code_of k (old_codes creds seen) t.credentials,
      contains-old_codes k creds seen uc h,
    );
  }
  advance_in (puts []) t uc row ut h = record { distinct = ut; ready = h; change = inl refl }
  advance_in (puts (c ∷ rest)) t uc row ut ((fresh, u), h) =
      let put = find-upsert code_of k c t.credentials in
      record {
        distinct = upsert-NodupKeys code_of c t.credentials ut;
        ready = (u, unfold find in ground arith);
        change = unfold find in ground arith;
      }

-- What is deleted by what was read leaves what does not come from the feed.
left_over :
    (old seen v : Option Credential)
    → (v ≡ old) ⊎ (v ≡ manual old)
    → (seen ≡ old) ⊎ ((seen ≡ manual old) × (v ≡ manual old))
    → (if is_some (automatic seen) then none else v) ≡ manual old
left_over none seen v near saw = ground (arith, near, saw)
left_over (some c) seen v near saw = ground (arith, near, saw)

-- A code that the file does not have.
module _ (creds : List Credential) (k : String) (old : Option Credential) where
  ReadyOut : Phase → Option Credential → Type 0
  ReadyOut begins v = (v ≡ old) ⊎ (v ≡ manual old)
  ReadyOut (has_read seen) v =
      NodupKeys code_of seen.credentials
      × ((v ≡ old) ⊎ (v ≡ manual old))
      × ((find code_of k seen.credentials ≡ old)
          ⊎ ((find code_of k seen.credentials ≡ manual old) × (v ≡ manual old)))
  ReadyOut (puts rest) v = (v ≡ manual old) × (find code_of k rest ≡ none)

  stable_out :
      (p : Phase) (v v' : Option Credential)
      → ReadyOut p v
      → (v' ≡ v) ⊎ (v' ≡ manual old)
      → ReadyOut p v'
  unfolding ReadyOut
  stable_out begins v v' h c = ground (arith, h, c)
  stable_out (has_read seen) v v' (u, near, saw) c =
      (u, ground (arith, near, c), ground (arith, saw, c))
  stable_out (puts rest) v v' (is, gone) c = (ground (arith, c), gone)

  advance_out :
      (p : Phase) (t : Tables AccessTime)
      → NodupKeys code_of creds
      → find code_of k creds ≡ none
      → NodupKeys code_of t.credentials
      → ReadyOut p (find code_of k t.credentials)
      → Advances creds k (manual old) ReadyOut p t
  unfolding move ReadyOut
  advance_out begins t uc row ut h = record {
    distinct = ut;
    ready = (ut, h, ground (arith, h));
    change = inl refl;
  }
  advance_out (has_read seen) t uc row ut (us, near, saw) =
      let deleted = find-delete_any code_of k (old_codes creds seen) t.credentials in
      let which = contains-old_codes k creds seen uc us in
      let kept =
        left_over old (find code_of k seen.credentials) (find code_of k t.credentials) near saw in
      let left : find code_of k (removed (old_codes creds seen) t).credentials ≡ manual old =
        ground (arith, deleted, which, row, kept) in
      record {
        distinct = delete_any-NodupKeys code_of (old_codes creds seen) t.credentials ut;
        ready = (left, row);
        change = inr left;
      }
  advance_out (puts []) t uc row ut h = record { distinct = ut; ready = h; change = inl refl }
  advance_out (puts (c ∷ rest)) t uc row ut (is, gone) =
      let put = find-upsert code_of k c t.credentials in
      record {
        distinct = upsert-NodupKeys code_of c t.credentials ut;
        ready = unfold find in ground arith;
        change = unfold find in ground arith;
      }

put_in_the_end :
    (k : String) (r : Credential) (v : Option Credential)
    → (find code_of k [] ≡ some r) ⊎ ((find code_of k [] ≡ none) × (v ≡ some r))
    → v ≡ some r
unfolding find
put_in_the_end k r v h = ground (arith, h)

-- What the code has when both are done.
settled :
    (creds : List Credential) (t : Tables AccessTime) (k : String) (turns : List Bool)
    → NodupKeys code_of creds
    → NodupKeys code_of t.credentials
    → (overlap creds turns begins begins t).0 ≡ (puts [], puts [])
    → find code_of k (overlap creds turns begins begins t).1.credentials
      ≡ or_else (find code_of k creds) (manual (find code_of k t.credentials))
unfolding ReadyIn ReadyOut or_else
settled creds t k turns uc ut done = elim (Option-cases (find code_of k creds)) [
  | inl row ↦
      let old = find code_of k t.credentials in
      let b =
        overlap-Both creds k (manual old) (ReadyOut creds k old) (stable_out creds k old)
          (λ p t ut h. advance_out creds k old p t uc row ut h) turns begins begins t
          (record { distinct = ut; first = inl refl; second = inl refl }) in
      let at_end =
        subst
          (λ p.
            ReadyOut creds k old p
              (find code_of k (overlap creds turns begins begins t).1.credentials))
          (ap (λ s. s.0) done) b.first in
      rw row at_end.0
  | inr (r, row) ↦
      let b =
        overlap-Both creds k (some r) (ReadyIn creds k r) (stable_in creds k r)
          (λ p t ut h. advance_in creds k r p t uc row ut h) turns begins begins t
          (record { distinct = ut; first = tt; second = tt }) in
      let at_end =
        subst
          (λ p.
            ReadyIn creds k r p
              (find code_of k (overlap creds turns begins begins t).1.credentials))
          (ap (λ s. s.0) done) b.first in
      rw row (put_in_the_end k r _ at_end.1)
]

-- The calls of a goroutine that is alone.
abbrev pub alone : List Credential → List Bool
alone creds = true ∷ true ∷ map (λ _. true) creds

puts_alone :
    (creds rest : List Credential) (q : Phase) (t : Tables AccessTime)
    → overlap creds (map (λ _. true) rest) (puts rest) q t ≡ ((puts [], q), stored rest t)
unfolding overlap move upsert_all
puts_alone creds [] q t = refl
puts_alone creds (c ∷ rest) q t =
    puts_alone creds rest q (record t { credentials = upsert code_of c t.credentials })

sync_file-alone :
    (creds : List Credential) (t : Tables AccessTime)
    → All (λ c. allowed c.open_mode ≡ true) creds
    → sync_file creds (calm t) ≡ (ok tt, calm (overlap creds (alone creds) begins begins t).1)
unfolding overlap move
sync_file-alone creds t fits =
    sync_file_quiet creds t fits
    ∙ ap (λ s. (ok tt, calm s.1))
        (sym (puts_alone creds creds begins (removed (old_codes creds t) t)))

-- With no failing call, a remote database that meets its PRIMARY KEY, and credentials of a file with no code
-- twice and with open modes that the CHECK allows: the calls of one goroutine alone are those of
-- `HandleFile`; and in whatever order the calls of two goroutines with the same file are mixed, when
-- both are done the remote database has under every code what one of them alone leaves there.
pub overlap-sync_file :
    (creds : List Credential) (t : Tables AccessTime) (k : String) (turns : List Bool)
    → NodupKeys code_of creds
    → All (λ c. allowed c.open_mode ≡ true) creds
    → NodupKeys code_of t.credentials
    → (overlap creds turns begins begins t).0 ≡ (puts [], puts [])
    → (sync_file creds (calm t) ≡ (ok tt, calm (overlap creds (alone creds) begins begins t).1))
      × (find code_of k (overlap creds turns begins begins t).1.credentials
          ≡ find code_of k (sync_file creds (calm t)).1.tables.credentials)
overlap-sync_file creds t k turns uc fits ut done = (
  sync_file-alone creds t fits,
  settled creds t k turns uc ut done ∙ sym (find-sync_file creds t k uc fits ut).1,
)
