-- ===== src/Bootstrap/Latest.antt =====
-- What the attributes are after a run.
use cream_bots.Prelude.{
  String, String_discrete, Bool, true, false, Option, none, some, List, [], ◌∷◌, ◌≡◌, refl, sym, ap,
  ◌∙◌, subst, Result, ok, raise, Result-cases, contains, holds, holds_of, of_holds, if◌then◌else◌,
  Bool-cases, inl, inr,
}
use cream_bots.Prelude.Dict.{get, get-put_self, get-put_ne}
use cream_bots.Json.{ChannelMessage, Value, Object}
use cream_bots.Bootstrap.{
  relevant_keys, set_attribute, update_attributes, update_bot_state, read_state, receive_state,
  start,
}

-- The newer value, if there is one.
abbrev pub newer : Option Value → Option Value → Option Value
newer none old = old
newer (some v) old = some v

get-set_attribute_self :
    (key : String) (o : Option Value) (s : Object)
    → get String_discrete key (set_attribute key o s) ≡ newer o (get String_discrete key s)
unfolding set_attribute
get-set_attribute_self key none s = refl
get-set_attribute_self key (some v) s = get-put_self String_discrete key v s

get-set_attribute_ne :
    (key name : String) (o : Option Value) (s : Object)
    → ¬ (key ≡ name)
    → get String_discrete name (set_attribute key o s) ≡ get String_discrete name s
unfolding set_attribute
get-set_attribute_ne key name none s n = refl
get-set_attribute_ne key name (some v) s n = get-put_ne String_discrete key name v s n

-- What a key that is read of `app_state` has there; any other key has nothing.
abbrev pub published : List String → Object → String → Option Value
unfolding contains String_discrete
published keys app_state name =
    if contains String_discrete keys name then get String_discrete name app_state else none

newer_twice : (a b : Option Value) → newer a (newer a b) ≡ newer a b
newer_twice none b = refl
newer_twice (some v) b = refl

newer_same :
    (seen : Bool) (a b : Option Value) → newer (if seen then a else none) (newer a b) ≡ newer a b
newer_same true a b = newer_twice a b
newer_same false a b = refl

get-update_attributes :
    (keys : List String) (app_state s : Object) (name : String)
    → get String_discrete name (update_attributes keys app_state s)
      ≡ newer (published keys app_state name) (get String_discrete name s)
unfolding update_attributes contains
get-update_attributes [] app_state s name = refl
get-update_attributes (key ∷ keys) app_state s name =
    get-update_attributes keys app_state (set_attribute key (get String_discrete key app_state) s)
      name
    ∙ elim (Bool-cases (holds (String_discrete name key))) [
      | inl e ↦
          let same = of_holds (String_discrete name key) e in
          rw e (
            ap (newer (published keys app_state name)) (
              subst
                (λ k.
                  get String_discrete name (set_attribute k (get String_discrete k app_state) s)
                  ≡ newer (get String_discrete name app_state) (get String_discrete name s))
                same (get-set_attribute_self name (get String_discrete name app_state) s))
            ∙ newer_same (contains String_discrete keys name) (get String_discrete name app_state)
                (get String_discrete name s))
      | inr n ↦ rw n (
          ap (newer (published keys app_state name)) (
            get-set_attribute_ne key name (get String_discrete key app_state) s
              (λ same. true-ne-false (sym (holds_of (String_discrete name key) (sym same)) ∙ n))))
    ]
  where
    true-ne-false : true ≡ false → ⊥
    true-ne-false h = cc

-- The last of the states that has the key.
unfoldable pub latest : String → List Object → Option Value → Option Value
unfolding contains
latest name [] value = value
latest name (s ∷ rest) value = latest name rest (newer (published relevant_keys s name) value)

module _ (loads : String → Result Object) where
  abbrev add_state : Result Object → List Object → List Object
  add_state (ok s) later = s ∷ later
  add_state (raise _) later = []

  -- The states that are published before the first message that cannot be read.
  unfoldable pub states : List ChannelMessage → List Object
  unfolding String_discrete
  states [] = []
  states (m ∷ rest) =
      let later = states rest in
      if holds (String_discrete m.type_name "message")
      then add_state (read_state loads m.channel_data) later
      else later

  -- An attribute of the bot's state has, when the service ends, the value of the last state that
  -- was published with its key before the first message that cannot be read, if its key is one of
  -- the relevant ones; without such a state, and for every other key, it is what it was at first.
  pub get-start :
      (messages : List ChannelMessage) (bot_state : Object) (name : String)
      → get String_discrete name (start loads messages bot_state).bot_state
        ≡ latest name (states messages) (get String_discrete name bot_state)
  unfolding start receive_state states latest update_bot_state
  get-start [] bot_state name = refl
  get-start (m ∷ rest) bot_state name =
      elim (Bool-cases (holds (String_discrete m.type_name "message"))) [
        | inr n ↦ rw n (get-start rest bot_state name)
        | inl e ↦ elim (Result-cases (read_state loads m.channel_data)) [
          | inr (x, bad) ↦ rw (e, bad) refl
          | inl (s, good) ↦
              rw (e, good)
                (get-start rest (update_bot_state s bot_state) name
                  ∙ ap (latest name (states rest))
                      (get-update_attributes relevant_keys s bot_state name))
        ]
      ]
