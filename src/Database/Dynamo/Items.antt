-- ===== src/Database/Dynamo/Items.antt =====
-- What is written to an item is read back from it.
use pigate.Prelude.{
  ◌≡◌, refl, ap, ◌∙◌, String, some, List, [], ◌∷◌, ◌++◌, map, append-nil, append_assoc, codes,
  arith, All, Result, ok, Outcome, returns, panics, string_eq, if◌then◌else◌, is_nil,
}
use pigate.Database.Models.{Time, Credential, AccessTime}
use pigate.Database.ClockText.{IsValid, format, parse, parse-format}
use pigate.Database.Decimal.{to_text, codes-to_text, atoi-sprintf, IsInt, IsPrinted}
use pigate.Database.Sqlite.AccessTimes.{HasValidTimes, undated}
use pigate.Database.Dynamo.{
  Client, Item, as_s, credential_item, credential_key, decode_credential, read_credential,
  found_credential, decode_all, attribute, access_time_item, access_time_key, decode_access_time,
  found_access_time, get_credential, get_credentials, get_access_time,
}

decode_credential-credential_item :
    (c : Credential)
    → IsInt c.access_group
    → decode_credential (returns c.code) (credential_item c) ≡ returns (ok c)
unfolding decode_credential read_credential credential_item string_eq
decode_credential-credential_item c fits = rw (atoi-sprintf c.access_group fits)

module _ (item : Item) (items : List Item) (before : List Credential) where
  abbrev decoded : Outcome (Result Credential)
  decoded = decode_credential (as_s (attribute "Code" item)) item

  decode_all_step :
      {c : Credential}
      → decoded ≡ returns (ok c)
      → decode_all (item ∷ items) before ≡ decode_all items (before ++ c ∷ [])
  unfolding decode_all
  decode_all_step h = ground arith

  decode_all_stop : decoded ≡ panics → decode_all (item ∷ items) before ≡ panics
  unfolding decode_all
  decode_all_stop h = ground arith

code_first :
    (c : Credential) (before : List Credential)
    → IsInt c.access_group
    → decoded (credential_item c) [] before ≡ returns (ok c)
code_first c before fits =
    unfold credential_item string_eq in decode_credential-credential_item c fits

decode_all-credential_item :
    (creds before : List Credential) (rest : List Item)
    → All (λ c. IsInt c.access_group) creds
    → decode_all (map credential_item creds ++ rest) before ≡ decode_all rest (before ++ creds)
decode_all-credential_item [] before rest fits = rw (append-nil before)
decode_all-credential_item (c ∷ creds) before rest (fit, fits) =
    decode_all_step (credential_item c) (map credential_item creds ++ rest) before
      (code_first c before fit)
    ∙ decode_all-credential_item creds (before ++ c ∷ []) rest fits
    ∙ ap (decode_all rest) (append_assoc before (c ∷ []) creds)

format-IsPrinted : (t : Time) → IsValid t → All IsPrinted (format t)
unfolding format
format-IsPrinted t v = omega arith

pub parse-to_text :
    (t : Time) → IsValid t → parse (codes (to_text (format t))) ≡ some (record t { day = 0 })
parse-to_text t v = ap parse (codes-to_text (format t) (format-IsPrinted t v)) ∙ parse-format t v

decode_access_time-access_time_item :
    (a : AccessTime)
    → HasValidTimes a
    → IsInt a.start_weekday
    → IsInt a.end_weekday
    → decode_access_time a.access_group (access_time_item a) ≡ returns (ok (undated a))
unfolding decode_access_time access_time_item string_eq
decode_access_time-access_time_item a v first last = rw (
  parse-to_text a.start_time v.start_valid,
  parse-to_text a.end_time v.end_valid,
  atoi-sprintf a.start_weekday first,
  atoi-sprintf a.end_weekday last,
)

-- An item without a code, such as that of an access time.
no_code :
    (a : AccessTime) (before : List Credential)
    → IsInt a.access_group
    → decoded (access_time_item a) [] before ≡ panics
unfolding decode_credential read_credential access_time_item string_eq
no_code a before fits = rw (atoi-sprintf a.access_group fits)

module _ (client : Client) (table : String) (s : client.State) where
  pub get_credential-credential_item :
      (c : Credential)
      → IsInt c.access_group
      → (client.get_item table (credential_key c.code) s).0 ≡ ok (some (credential_item c))
      → (get_credential client table c.code s).0 ≡ returns (ok c)
  unfolding get_credential found_credential
  get_credential-credential_item c fits found = rw (found, decode_credential-credential_item c fits)

  -- The scan returns the items that `PutCredentials` writes for some credentials, and after them
  -- those that `PutAccessTime` writes for some access times; the access groups are numbers of 64
  -- bits. Then `GetCredentials` returns the credentials in that order if there is no access time,
  -- and panics otherwise.
  pub get_credentials_lem :
      (creds : List Credential) (others : List AccessTime)
      → All (λ c. IsInt c.access_group) creds
      → All (λ a. IsInt a.access_group) others
      → (client.scan table s).0 ≡ ok (map credential_item creds ++ map access_time_item others)
      → (get_credentials client table s).0 ≡ (if is_nil others then returns (ok creds) else panics)
  unfolding get_credentials
  get_credentials_lem creds [] fits _ found =
      rw found (decode_all-credential_item creds [] [] fits ∙ unfold decode_all in refl)
  get_credentials_lem creds (a ∷ others) fits (fit, _) found = rw found (
      decode_all-credential_item creds [] (map access_time_item (a ∷ others)) fits
      ∙ decode_all_stop (access_time_item a) (map access_time_item others) creds
          (no_code a creds fit))

  -- Where the service finds the item that `PutAccessTime` writes for an access time,
  -- `GetAccessTime` returns that access time, with its two times of day and its weekdays, if its
  -- times are times of Go and its weekdays numbers of 64 bits.
  pub get_access_time-access_time_item :
      (a : AccessTime)
      → HasValidTimes a
      → IsInt a.start_weekday
      → IsInt a.end_weekday
      → (client.get_item table (access_time_key a.access_group) s).0
        ≡ ok (some (access_time_item a))
      → (get_access_time client table a.access_group s).0 ≡ returns (ok (undated a))
  unfolding get_access_time found_access_time
  get_access_time-access_time_item a v first last found =
      rw (found, decode_access_time-access_time_item a v first last)
