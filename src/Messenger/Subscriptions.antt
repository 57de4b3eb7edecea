-- ===== src/Messenger/Subscriptions.antt =====
-- pigate/pkg/messenger/messanger.go, `MQTTClient`: its subscriptions, which are kept for the time when
-- the connection comes back. `H` is the type of the callbacks.
use pigate.Prelude.{
  ◌≡◌, refl, sym, subst, ap, ◌∙◌, String, none, List, [], ◌∷◌, ◌++◌, append_assoc, append-nil, ◌<>◌,
  Result, string_eq,
}
use pigate.Database.Table.{find, upsert, upsert_all, NodupKeys}
use pigate.Database.Table.Laws.{latest, find-upsert_all}
use pigate.Messenger.Messages.{topic_pigate_status, topic_pigate_command, topic_credentials_status}
use pigate.Messenger.Client.{Token, wait_for_token}

-- `Subscribe(topic, 1, handler)` of the library.
pub record Subscriber (H : Type 0) : Type 1 where
  pub State : Type 0
  pub subscribe : String → H → State → Token × State

module _ {H : Type 0} where
  -- An entry of the map `subscriptions`.
  abbrev pub topic_of : String × H → String
  topic_of (topic, handler) = topic

  module _ (client : Subscriber H) where
    -- `subscriptions`, and the state of the client of the library.
    pub record Subscriptions : Type 0 where
      pub handlers : List (String × H)
      pub broker : client.State

    -- The form of the three methods: the callback is kept before the broker is asked, and stays
    -- kept when the broker does not answer.
    unfoldable pub subscribe_topic : String → H → Subscriptions → Result (Unit {0}) × Subscriptions
    subscribe_topic topic callback r =
        let (token, broker) = client.subscribe topic callback r.broker in
        (
          wait_for_token ("subscribe to topic " <> topic) token,
          record { handlers = upsert topic_of (topic, callback) r.handlers; broker = broker },
        )

    module _ (location_id : String) where
      unfoldable pub subscribe_pigate_status : H → Subscriptions → Result (Unit {0}) × Subscriptions
      subscribe_pigate_status = subscribe_topic (topic_pigate_status location_id)

      unfoldable pub subscribe_pigate_command :
          H → Subscriptions → Result (Unit {0}) × Subscriptions
      subscribe_pigate_command = subscribe_topic (topic_pigate_command location_id)

      unfoldable pub subscribe_credential_status :
          H → Subscriptions → Result (Unit {0}) × Subscriptions
      subscribe_credential_status = subscribe_topic (topic_credentials_status location_id)

    -- The loop of `resubscribeAll`, in the order in which Go walks over the map; errors are logged.
    unfoldable pub resubscribe_all : List (String × H) → Subscriptions → Subscriptions
    resubscribe_all [] r = r
    resubscribe_all ((topic, callback) ∷ rest) r =
        resubscribe_all rest (record r { broker = (client.subscribe topic callback r.broker).1 })

    -- Subscriptions one after the other, whatever the broker answers.
    unfoldable pub subscribe_each : List (String × H) → Subscriptions → Subscriptions
    subscribe_each [] r = r
    subscribe_each ((topic, callback) ∷ rest) r =
        subscribe_each rest (subscribe_topic topic callback r).1

    handlers-subscribe_each :
        (calls : List (String × H)) (r : Subscriptions)
        → (subscribe_each calls r).handlers ≡ upsert_all topic_of calls r.handlers
    unfolding subscribe_each subscribe_topic upsert_all
    handlers-subscribe_each [] r = refl
    handlers-subscribe_each ((topic, callback) ∷ rest) r =
        handlers-subscribe_each rest (subscribe_topic topic callback r).1

  -- A client that also keeps what it is asked for.
  abbrev pub recording : Subscriber H → Subscriber H
  recording client = record {
    State = client.State × List (String × H);
    subscribe = λ topic callback s.
        let (token, broker) = client.subscribe topic callback s.0 in
        (token, (broker, s.1 ++ (topic, callback) ∷ []));
  }

  asked-resubscribe_all :
      (client : Subscriber H) (entries : List (String × H)) (r : Subscriptions (recording client))
      → (resubscribe_all (recording client) entries r).broker.1 ≡ r.broker.1 ++ entries
  unfolding resubscribe_all
  asked-resubscribe_all client [] r = sym (append-nil r.broker.1)
  asked-resubscribe_all client ((topic, callback) ∷ rest) r =
      asked-resubscribe_all client rest _ ∙ append_assoc r.broker.1 ((topic, callback) ∷ []) rest

  -- A walk over a map, in any order.
  pub record IsWalk (order entries : List (String × H)) : Type 0 where
    pub once : NodupKeys topic_of order
    pub same : (topic : String) → find topic_of topic order ≡ find topic_of topic entries

  abbrev pub no_subscriptions :
      (client : Subscriber H) → client.State → Subscriptions (recording client)
  no_subscriptions client s = record { handlers = []; broker = (s, []) }

  -- After any subscriptions of a new client, whatever the broker answers to each of them, and in
  -- whatever order Go walks over the map, `resubscribeAll` asks for every topic at most once, and for
  -- each with the callback of its last subscription; a topic without one it does not ask for.
  pub resubscribe_all_lem :
      (client : Subscriber H) (calls order : List (String × H)) (s : client.State)
      → let r = subscribe_each (recording client) calls (no_subscriptions client s) in
        IsWalk order r.handlers
        → let asked =
            (resubscribe_all
              (recording client)
              order
              (record r { broker = (r.broker.0, []) })).broker.1 in
          NodupKeys topic_of asked
          × ((topic : String) → find topic_of topic asked ≡ latest topic_of topic calls none)
  resubscribe_all_lem client calls order s walk =
      let r = subscribe_each (recording client) calls (no_subscriptions client s) in
      let kept = handlers-subscribe_each (recording client) calls (no_subscriptions client s) in
      let asked = asked-resubscribe_all client order (record r { broker = (r.broker.0, []) }) in
      (
        subst (NodupKeys topic_of) (sym asked) walk.once,
        λ topic.
            ap (find topic_of topic) asked
            ∙ walk.same topic
            ∙ ap (find topic_of topic) kept
            ∙ find-upsert_all topic_of topic calls []
            ∙ unfold find in refl,
      )
