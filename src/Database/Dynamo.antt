-- ===== src/Database/Dynamo.antt =====
-- pigate/pkg/database/dynamodb_repository.go: the access manager on DynamoDB. The client of the
-- service is a library, and a parameter here.
pub mod Items
pub mod Batches
use pigate.Prelude.{
  ℕ, ◌+◌, String, Bool, true, false, Option, none, some, List, [], ◌∷◌, ◌++◌, ℤ, pos, codes, Error,
  text, Result, ok, err, Outcome, returns, panics, M, pure, and_then, ◌>>=◌, ◌>>◌, length, eqb,
  string_eq, ◌==◌, if◌then◌else◌,
}
use pigate.Database.Models.{Time, Credential, AccessTime}
use pigate.Database.ClockText.{format, parse}
use pigate.Database.Decimal.{to_text, sprintf, atoi}

-- The members of `types.AttributeValue` that the code uses. A number is a text.
pub data AttributeValue : Type 0 where
  member_s member_n : String → AttributeValue
  member_bool : Bool → AttributeValue

-- `map[string]types.AttributeValue`.
abbrev pub Item : Type 0
Item = List (String × AttributeValue)

pub data WriteRequest : Type 0 where
  put_request : Item → WriteRequest
  delete_request : Item → WriteRequest

-- The calls of the library, each with the name of the table.
pub record Client : Type 1 where
  pub State : Type 0
  pub put_item : String → Item → M State (Unit {0})
  pub get_item : String → Item → M State (Option Item)
  pub delete_item : String → Item → M State (Unit {0})
  pub scan : String → M State (List Item)
  pub batch_write_item : String → List WriteRequest → M State (Unit {0})

abbrev pub attribute : String → Item → Option AttributeValue
attribute name [] = none
attribute name ((key, value) ∷ item) = if key == name then some value else attribute name item

-- The type assertions: of a missing attribute, or one of another type, they panic.
abbrev pub as_s : Option AttributeValue → Outcome String
as_s (some (member_s value)) = returns value
as_s _ = panics

abbrev as_n : Option AttributeValue → Outcome String
as_n (some (member_n value)) = returns value
as_n _ = panics

abbrev as_bool : Option AttributeValue → Outcome Bool
as_bool (some (member_bool value)) = returns value
as_bool _ = panics

-- A step that may panic, and one that may also return an error.
abbrev pub run_then : {A B : Type 0} → Outcome A → (A → Outcome B) → Outcome B
run_then panics f = panics
run_then (returns a) f = f a

abbrev converted : {B : Type 0} → String → Option ℤ → (ℤ → Outcome (Result B)) → Outcome (Result B)
converted message none f = returns (err (text message))
converted message (some i) f = f i

abbrev parsed :
    {B : Type 0} → String → Option Time → (Time → Outcome (Result B)) → Outcome (Result B)
parsed message none f = returns (err (text message))
parsed message (some t) f = f t

unfoldable pub credential_item : Credential → Item
credential_item c =
    ("Code", member_s c.code)
    ∷ ("Username", member_s c.username)
    ∷ ("AccessGroup", member_n (sprintf c.access_group))
    ∷ ("LockedOut", member_bool c.locked_out)
    ∷ ("AutoUpdate", member_bool c.auto_update)
    ∷ ("OpenMode", member_s c.open_mode)
    ∷ []

unfoldable pub credential_key : String → Item
credential_key code = ("Code", member_s code) ∷ []

-- The attributes of an item, after its code.
unfoldable pub read_credential : Outcome String → Item → ℤ → Outcome (Result Credential)
read_credential code item group = run_then code λ code.
    run_then (as_s (attribute "Username" item)) λ username.
      run_then (as_bool (attribute "LockedOut" item)) λ locked_out.
        run_then (as_bool (attribute "AutoUpdate" item)) λ auto_update.
          run_then (as_s (attribute "OpenMode" item)) λ open_mode. returns (
            ok (record {
              code = code;
              username = username;
              access_group = group;
              locked_out = locked_out;
              auto_update = auto_update;
              open_mode = open_mode;
            }))

-- The access group is converted first.
unfoldable pub decode_credential : Outcome String → Item → Outcome (Result Credential)
decode_credential code item =
    run_then (as_n (attribute "AccessGroup" item))
      λ number. converted "invalid syntax" (atoi number) λ group. read_credential code item group

unfoldable pub found_credential : String → Result (Option Item) → Outcome (Result Credential)
found_credential code (err e) = returns (err e)
found_credential code (ok none) = returns (err (text "credential not found"))
found_credential code (ok (some item)) = decode_credential (returns code) item

-- The loop of `GetCredentials`.
unfoldable pub decode_all : List Item → List Credential → Outcome (Result (List Credential))
decode_all [] credentials = returns (ok credentials)
decode_all (item ∷ items) credentials =
    elim (decode_credential (as_s (attribute "Code" item)) item) [
      | panics ↦ panics
      | returns (err e) ↦ returns (err e)
      | returns (ok c) ↦ decode_all items (credentials ++ c ∷ [])
    ]

abbrev scanned : Result (List Item) → Outcome (Result (List Credential))
scanned (err e) = returns (err e)
scanned (ok items) = decode_all items []

unfoldable pub access_time_item : AccessTime → Item
access_time_item a =
    ("AccessGroup", member_n (sprintf a.access_group))
    ∷ ("StartTime", member_s (to_text (format a.start_time)))
    ∷ ("EndTime", member_s (to_text (format a.end_time)))
    ∷ ("StartWeekday", member_n (sprintf a.start_weekday))
    ∷ ("EndWeekday", member_n (sprintf a.end_weekday))
    ∷ []

unfoldable pub access_time_key : ℤ → Item
access_time_key group = ("AccessGroup", member_n (sprintf group)) ∷ []

unfoldable pub decode_access_time : ℤ → Item → Outcome (Result AccessTime)
decode_access_time group item = run_then (as_s (attribute "StartTime" item)) λ start_text.
    run_then (as_s (attribute "EndTime" item)) λ end_text.
      parsed "invalid start time format" (parse (codes start_text)) λ start.
        parsed "invalid end time format" (parse (codes end_text)) λ end.
          run_then (as_n (attribute "StartWeekday" item)) λ first.
            converted "invalid start weekday" (atoi first) λ start_weekday.
              run_then (as_n (attribute "EndWeekday" item)) λ last.
                converted "invalid end weekday" (atoi last) λ end_weekday. returns (
                  ok (record {
                    access_group = group;
                    start_time = start;
                    end_time = end;
                    start_weekday = start_weekday;
                    end_weekday = end_weekday;
                  }))

unfoldable pub found_access_time : ℤ → Result (Option Item) → Outcome (Result AccessTime)
found_access_time group (err e) = returns (err e)
found_access_time group (ok none) = returns (err (text "access time not found"))
found_access_time group (ok (some item)) = decode_access_time group item

abbrev pub batch_size : ℕ
batch_size = 25

module _ (client : Client) (table : String) where
  open client use {State}

  unfoldable pub put_credential : Credential → M State (Unit {0})
  put_credential c = client.put_item table (credential_item c)

  unfoldable pub batch_write : List WriteRequest → M State (Unit {0})
  batch_write requests = client.batch_write_item table requests

  -- After the loop over the values.
  abbrev pub write_rest : List WriteRequest → M State (Unit {0})
  write_rest [] = pure tt
  write_rest (r ∷ rest) = batch_write (r ∷ rest)

  -- The loop that `PutCredentials` and `DeleteCredentials` share in form: a request is appended for
  -- each value, and 25 of them are sent.
  unfoldable pub write_all :
      {A : Type 0} → (A → WriteRequest) → List A → List WriteRequest → M State (Unit {0})
  write_all request [] requests = write_rest requests
  write_all request (a ∷ rest) requests =
      elim (eqb (length (requests ++ request a ∷ [])) batch_size) [
        | true ↦ do batch_write (requests ++ request a ∷ []); write_all request rest []
        | false ↦ write_all request rest (requests ++ request a ∷ [])
      ]

  unfoldable pub put_credentials : List Credential → M State (Unit {0})
  put_credentials creds = write_all (λ c. put_request (credential_item c)) creds []

  unfoldable pub get_credential : String → State → Outcome (Result Credential) × State
  get_credential code s =
      let (r, s') = client.get_item table (credential_key code) s in (found_credential code r, s')

  unfoldable pub get_credentials : State → Outcome (Result (List Credential)) × State
  get_credentials s = let (r, s') = client.scan table s in (scanned r, s')

  unfoldable pub delete_credential : String → M State (Unit {0})
  delete_credential code = client.delete_item table (credential_key code)

  unfoldable pub delete_credentials : List String → M State (Unit {0})
  delete_credentials [] = pure tt
  delete_credentials (code ∷ codes) =
      write_all (λ c. delete_request (credential_key c)) (code ∷ codes) []

  unfoldable pub put_access_time : AccessTime → M State (Unit {0})
  put_access_time a = client.put_item table (access_time_item a)

  unfoldable pub get_access_time : ℤ → State → Outcome (Result AccessTime) × State
  get_access_time group s =
      let (r, s') = client.get_item table (access_time_key group) s in
      (found_access_time group r, s')

  unfoldable pub delete_access_time : ℤ → M State (Unit {0})
  delete_access_time group = client.delete_item table (access_time_key group)
