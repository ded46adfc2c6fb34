-- ===== src/Events/Received.antt =====
-- From what the handlers keep to what a message keeps.
use cream_bots.Prelude.{String, String_discrete, Option, none, some, List, ◌≡◌, refl, ok, holds}
use cream_bots.Prelude.Dict.{get}
use cream_bots.Prelude.Exec.{
  gets, Keeps, keeps_rules, Keeps-pure, Keeps-gets, Keeps-if, Keeps-bind, Keeps-bind-lift,
}
use cream_bots.Events.{EventLog, Message, Codec, PoolStore, State, item}
use cream_bots.Events.Decoding.{topic0}
use cream_bots.Events.Listening.{
  Handler, event_table, process, dispatch, process_data, store_first_event, set_first_event,
  receive,
}

module _ (codec : Codec) where
  -- The message carries the event, and the event's first topic is that of the handler.
  pub record Carries (message : Message) (handler : Handler) (event : EventLog) : Type 0 where
    pub text : String
    pub topics : List String
    pub topic : String
    pub has_text : message.event_data ≡ some text
    pub loaded : codec.loads text ≡ ok event
    pub has_topics : event.topics ≡ some topics
    pub first_topic : topic0 topics ≡ ok topic
    pub handled : get String_discrete topic (event_table codec) ≡ some handler

  item_ok : {A : Type 0} (o : Option A) (a : A) → item o ≡ ok a → o ≡ some a
  item_ok none a e = cc
  item_ok (some b) a e = cc

  module _ (lib : PoolStore) (P : State lib → Type 0)
      (first : (block : String) → Keeps P (store_first_event codec lib block)) (message : Message)
      (processed : (handler : Handler) (event : EventLog)
        → Carries message handler event
        → Keeps P (process codec lib handler event)) where
    dispatch-Keeps :
        (block : String) (event : EventLog) (o : Option Handler)
        → ((handler : Handler) → o ≡ some handler → Carries message handler event)
        → Keeps P (dispatch codec lib block event o)
    unfolding dispatch
    dispatch-Keeps block event none carries = search keeps_rules
    dispatch-Keeps block event (some handler) carries =
        Keeps-bind (process codec lib handler event) _
          (processed handler event (carries handler refl))
          λ _. Keeps-bind-lift (codec.int_16 block) _ λ _ _. Keeps-pure tt

    process_data-Keeps :
        (o : Option String) → message.event_data ≡ o → Keeps P (process_data codec lib o)
    unfolding process_data
    process_data-Keeps none e = search keeps_rules
    process_data-Keeps (some text) e = Keeps-bind-lift (codec.loads text) _ λ event loaded.
        Keeps-bind-lift (item event.block_number) _ λ block _.
          Keeps-bind-lift (item event.topics) _ λ topics has_topics.
            Keeps-bind-lift (topic0 topics) _ λ topic first_topic.
              dispatch-Keeps block event _ λ handler handled. record {
                text = text;
                topics = topics;
                topic = topic;
                has_text = e;
                loaded = loaded;
                has_topics = item_ok _ _ has_topics;
                first_topic = first_topic;
                handled = handled;
              }

    set_first_event-Keeps : (o : Option String) → Keeps P (set_first_event codec lib message o)
    unfolding set_first_event
    set_first_event-Keeps (some _) = search keeps_rules
    set_first_event-Keeps none = search (keeps_rules, first)

    pub receive-Keeps : Keeps P (receive codec lib message)
    unfolding receive
    receive-Keeps =
        Keeps-if (holds (String_discrete message.type_name "message")) _ _
          (Keeps-bind (gets (λ s. s.first_event)) _ (Keeps-gets (λ s. s.first_event)) λ o.
            Keeps-bind (set_first_event codec lib message o) _ (set_first_event-Keeps o)
              λ _. process_data-Keeps message.event_data refl)
          (Keeps-pure tt)
