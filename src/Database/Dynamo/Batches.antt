-- ===== src/Database/Dynamo/Batches.antt =====
-- The batches that are sent for a list of writes.
use pigate.Prelude.{
  ◌≤◌, ◌<◌, ◌≡◌, refl, ap, inl, inr, String, true, false, List, [], ◌∷◌, ◌++◌, map, append_assoc,
  append-nil, arith, M, ◌>>◌, length, length-append, eqb, Bool-cases, fun_ext,
}
use pigate.Database.Models.{Credential}
use pigate.Database.Sql.{for_each}
use pigate.Database.Dynamo.{
  Client, WriteRequest, put_request, delete_request, credential_item, credential_key, batch_write,
  write_all, put_credentials, delete_credentials, write_rest,
}

abbrev pub concat : List (List WriteRequest) → List WriteRequest
concat [] = []
concat (b ∷ bs) = b ++ concat bs

-- Every batch is full, save the last, which is not empty.
abbrev pub IsPacked : List (List WriteRequest) → Type 0
IsPacked [] = Unit
IsPacked (b ∷ []) = (0 < length b) × (length b ≤ 25)
IsPacked (b ∷ c ∷ bs) = (length b ≡ 25) × IsPacked (c ∷ bs)

IsPacked-cons :
    (b : List WriteRequest) (bs : List (List WriteRequest))
    → length b ≡ 25
    → IsPacked bs
    → IsPacked (b ∷ bs)
IsPacked-cons b [] full h = omega arith
IsPacked-cons b (c ∷ bs) full h = (full, h)

module _ (client : Client) (table : String) where
  -- What a list of requests does: it is sent in batches, one after the other, up to the first error.
  pub record Sent (requests : List WriteRequest) (m : M client.State (Unit {0})) : Type 0 where
    pub batches : List (List WriteRequest)
    pub packed : IsPacked batches
    pub complete : concat batches ≡ requests
    pub runs : (s : client.State) → m s ≡ for_each (batch_write client table) batches s

  for_each-cons :
      (b : List WriteRequest) (bs : List (List WriteRequest)) (m : M client.State (Unit {0}))
      → ((s : client.State) → m s ≡ for_each (batch_write client table) bs s)
      → (s : client.State)
      → (do batch_write client table b; m) s ≡ for_each (batch_write client table) (b ∷ bs) s
  unfolding for_each
  for_each-cons b bs m h s = rw (fun_ext h) refl

  one_more :
      (b : List WriteRequest) {requests : List WriteRequest} {m : M client.State (Unit {0})}
      → length b ≡ 25
      → Sent requests m
      → Sent (b ++ requests) (do batch_write client table b; m)
  one_more b {m = m} full sent = record {
    batches = b ∷ sent.batches;
    packed = IsPacked-cons b sent.batches full sent.packed;
    complete = ap (λ l. b ++ l) sent.complete;
    runs = for_each-cons b sent.batches m sent.runs;
  }

  write_rest-Sent :
      (requests : List WriteRequest)
      → length requests < 25
      → Sent requests (write_rest client table requests)
  write_rest-Sent [] h = record {
    batches = [];
    packed = tt;
    complete = refl;
    runs = λ s. unfold for_each in refl;
  }
  write_rest-Sent (r ∷ rest) h = record {
    batches = (r ∷ rest) ∷ [];
    packed = (omega arith, omega arith);
    complete = append-nil (r ∷ rest);
    runs = λ s. unfold for_each in ground arith;
  }

  module _ {A : Type 0} (request : A → WriteRequest) (a : A) (values : List A)
      (requests : List WriteRequest) where
    write_all_full :
        eqb (length (requests ++ request a ∷ [])) 25 ≡ true
        → write_all client table request (a ∷ values) requests ≡ (do
          batch_write client table (requests ++ request a ∷ [])
          write_all client table request values [])
    unfolding write_all
    write_all_full full = ground arith

    write_all_more :
        eqb (length (requests ++ request a ∷ [])) 25 ≡ false
        → write_all client table request (a ∷ values) requests
          ≡ write_all client table request values (requests ++ request a ∷ [])
    unfolding write_all
    write_all_more more = ground arith

  write_all-Sent :
      {A : Type 0} (request : A → WriteRequest) (values : List A) (requests : List WriteRequest)
      → length requests < 25
      → Sent (requests ++ map request values) (write_all client table request values requests)
  write_all-Sent request [] requests h =
      unfold write_all in rw (append-nil requests) (write_rest-Sent requests h)
  write_all-Sent request (a ∷ values) requests h =
      let joined = append_assoc requests (request a ∷ []) (map request values) in
      let longer = length-append requests (request a ∷ []) in
      elim (Bool-cases (eqb (length (requests ++ request a ∷ [])) 25)) [
        | inl full ↦
            rw (write_all_full request a values requests full, ← joined)
              (one_more (requests ++ request a ∷ []) (ground arith)
                (write_all-Sent request values [] (omega arith)))
        | inr more ↦
            rw (write_all_more request a values requests more, ← joined)
              (write_all-Sent request values (requests ++ request a ∷ []) (ground arith))
      ]

  -- `PutCredentials` sends a request for every credential, in their order, in batches of 25 and a last one
  -- of 1 to 25 requests; it stops at the first batch that fails, and returns its error.
  pub put_credentials-Sent :
      (creds : List Credential)
      → Sent (map (λ c. put_request (credential_item c)) creds) (put_credentials client table creds)
  unfolding put_credentials
  put_credentials-Sent creds =
      write_all-Sent (λ c. put_request (credential_item c)) creds [] (omega arith)

  pub delete_credentials-Sent :
      (codes : List String)
      → Sent
          (map (λ c. delete_request (credential_key c)) codes)
          (delete_credentials client table codes)
  unfolding delete_credentials
  delete_credentials-Sent [] = write_rest-Sent [] (omega arith)
  delete_credentials-Sent (code ∷ codes) =
      write_all-Sent (λ c. delete_request (credential_key c)) (code ∷ codes) [] (omega arith)
