-- ===== src/Examples/Dynamo.antt =====
-- DynamoDB at concrete items.
use pigate.Prelude.{
  ◌≡◌, refl, none, some, List, [], ◌∷◌, ◌++◌, map, negsuc, ok, err, service, returns, panics,
  string_eq, int_eq, arith, is_nil, if◌then◌else◌,
}
use pigate.Database.Decimal.{
  sprintf, atoi, decimal, digits, printed, to_text, parse_int, scan_digits,
}
use pigate.Database.Dynamo.{
  Client, WriteRequest, put_request, credential_item, access_time_item, put_credentials,
  get_credentials,
}
use pigate.Database.Dynamo.Batches.{Sent, put_credentials-Sent}
use pigate.Database.Dynamo.Items.{get_credentials_lem}
use pigate.Examples.Data.{guest, keeper, hours}

prints :
    (sprintf (negsuc 41) ≡ "-42")
    × (atoi "-42" ≡ some (negsuc 41))
    × (atoi "9223372036854775808" ≡ none)
unfolding sprintf atoi decimal digits printed to_text parse_int scan_digits
prints = (refl, refl, refl)

-- A service that finds the item of an access time, and scans two credentials and that item. Its
-- state is the batches that it has got, the last first; it takes two of them.
abbrev service_of_two : Client
service_of_two = record {
  State = List (List WriteRequest);
  put_item = λ table item s. (ok tt, s);
  get_item = λ table key s. (ok (some (access_time_item hours)), s);
  delete_item = λ table key s. (ok tt, s);
  scan = λ table s.
      (ok (map credential_item (guest ∷ keeper ∷ []) ++ map access_time_item (hours ∷ [])), s);
  batch_write_item = λ table requests s. elim s [
    | [] ↦ (ok tt, requests ∷ [])
    | first ∷ rest ↦ (err service, first ∷ rest)
  ];
}

put_credentials-Sent_example :
    Sent service_of_two "Credentials"
      (map (λ c. put_request (credential_item c)) (guest ∷ keeper ∷ []))
      (put_credentials service_of_two "Credentials" (guest ∷ keeper ∷ []))
put_credentials-Sent_example =
    put_credentials-Sent service_of_two "Credentials" (guest ∷ keeper ∷ [])

get_credentials_lem_example :
    (get_credentials service_of_two "Credentials" []).0
    ≡ (if is_nil (hours ∷ []) then returns (ok (guest ∷ keeper ∷ [])) else panics)
get_credentials_lem_example =
    get_credentials_lem service_of_two "Credentials" [] (guest ∷ keeper ∷ []) (hours ∷ [])
      (omega arith, (omega arith, tt)) (omega arith, tt) refl
