-- ===== src/Database/Managers/Registry.antt =====
-- What an `AccessManager` promises about the credentials: it is a map from codes to credentials, each
-- operation of which is done, or fails, or is done in part where it is a batch.
use pigate.Prelude.{
  ◌≡◌, ◌≢◌, String, Option, none, some, List, [], ◌∷◌, ◌++◌, Error, no_rows, Result, ok, err,
  string_eq, contains, if◌then◌else◌,
}
use pigate.Database.Models.{Credential}
use pigate.Database.Table.{find}
use pigate.Database.Table.Laws.{latest}
use pigate.Database.Credentials.{code_of}
use pigate.Database.Managers.{AccessManager}

abbrev pub CodeMap : Type 0
CodeMap = String → Option Credential

abbrev pub with_all : List Credential → CodeMap → CodeMap
with_all creds m k = latest code_of k creds (m k)

abbrev pub without : List String → CodeMap → CodeMap
without codes m k = if contains codes k then none else m k

pub data Operation : Type 0 where
  put_one : Credential → Operation
  put_many : List Credential → Operation
  get_one : String → Operation
  get_all : Operation
  delete_one : String → Operation
  delete_many : List String → Operation

-- `nothing` is a nil pointer without an error.
pub data Answer : Type 0 where
  failed : Error → Answer
  done nothing : Answer
  found : Credential → Answer
  listed : List Credential → Answer

abbrev pub told : Result (Unit {0}) → Answer
told (ok unit) = done
told (err e) = failed e

abbrev pub told_one : Result (Option Credential) → Answer
told_one (ok none) = nothing
told_one (ok (some c)) = found c
told_one (err e) = failed e

abbrev pub told_all : Result (List Credential) → Answer
told_all (ok rows) = listed rows
told_all (err e) = failed e

-- What an operation may answer on a map, and what it may leave. A code that is said to be missing, by
-- nil or by `sql.ErrNoRows`, is missing. A list of all credentials may lack some of them.
pub data Does (m : CodeMap) : Operation → Answer → CodeMap → Type 0 where
  puts : (c : Credential) → Does m (put_one c) done (with_all (c ∷ []) m)
  put_fails : (c : Credential) (e : Error) → Does m (put_one c) (failed e) m
  puts_all : (creds : List Credential) → Does m (put_many creds) done (with_all creds m)
  puts_some :
      (creds rest : List Credential) (e : Error)
      → Does m (put_many (creds ++ rest)) (failed e) (with_all creds m)
  finds : (code : String) (c : Credential) → m code ≡ some c → Does m (get_one code) (found c) m
  misses : (code : String) → m code ≡ none → Does m (get_one code) nothing m
  has_no_row : (code : String) → m code ≡ none → Does m (get_one code) (failed no_rows) m
  get_fails : (code : String) (e : Error) → e ≢ no_rows → Does m (get_one code) (failed e) m
  lists :
      (rows : List Credential)
      → ((k : String) (c : Credential) → find code_of k rows ≡ some c → m k ≡ some c)
      → Does m get_all (listed rows) m
  get_all_fails : (e : Error) → Does m get_all (failed e) m
  deletes : (code : String) → Does m (delete_one code) done (without (code ∷ []) m)
  delete_fails : (code : String) (e : Error) → Does m (delete_one code) (failed e) m
  deletes_all : (codes : List String) → Does m (delete_many codes) done (without codes m)
  delete_all_fails : (codes : List String) (e : Error) → Does m (delete_many codes) (failed e) m

module _ (manager : AccessManager) where
  open manager use {State}

  unfoldable pub perform : Operation → State → Answer × State
  perform (put_one c) s = let (r, s') = manager.put_credential c s in (told r, s')
  perform (put_many creds) s = let (r, s') = manager.put_credentials creds s in (told r, s')
  perform (get_one code) s = let (r, s') = manager.get_credential code s in (told_one r, s')
  perform get_all s = let (r, s') = manager.get_credentials s in (told_all r, s')
  perform (delete_one code) s = let (r, s') = manager.delete_credential code s in (told r, s')
  perform (delete_many codes) s = let (r, s') = manager.delete_credentials codes s in (told r, s')

  unfoldable pub perform_all : List Operation → State → List Answer × State
  perform_all [] s = ([], s)
  perform_all (op ∷ ops) s =
      let (answer, s') = perform op s in
      let (answers, s'') = perform_all ops s' in (answer ∷ answers, s'')

  abbrev pub Obeys : (State → CodeMap) → Operation → State → Type 0
  Obeys view op s = Does (view s) op (perform op s).0 (view (perform op s).1)

  -- The contract: the manager shows a map, and does on it what is allowed.
  pub record IsRegistry : Type 0 where
    pub view : State → CodeMap
    pub does : (op : Operation) (s : State) → Obeys view op s

-- Operations one after the other.
pub data Runs : CodeMap → List Operation → List Answer → CodeMap → Type 0 where
  ends : {m : CodeMap} → Runs m [] [] m
  goes_on :
      {op : Operation} {ops : List Operation} {answer : Answer} {answers : List Answer}
      {m u v : CodeMap}
      → Does m op answer u
      → Runs u ops answers v
      → Runs m (op ∷ ops) (answer ∷ answers) v

-- Any operations of a manager that keeps the contract are, with their answers, operations on a map
-- of credentials by their codes.
pub perform_all-Runs :
    (manager : AccessManager) (r : IsRegistry manager) (ops : List Operation) (s : manager.State)
    → let (answers, s') = perform_all manager ops s in Runs (r.view s) ops answers (r.view s')
unfolding perform_all
perform_all-Runs manager r [] s = ends
perform_all-Runs manager r (op ∷ ops) s =
    goes_on (r.does op s) (perform_all-Runs manager r ops (perform manager op s).1)
