-- ===== src/Tests/Blacklist.antt =====
-- A service with two blocked pools on disk, and three updates, one of them of an unknown list.
use cream_bots.Prelude.{
  String, String_discrete, true, false, Option, none, some, List, [], ◌∷◌, ◌≡◌, refl, ok, raise,
  key_error, contains, ◌||◌, ◌⊎◌,
}
use cream_bots.Blacklist.{
  BlacklistType, pool_list, Service, new_service, list_of, load_blacklists, update_blacklist,
  is_blacklisted, update_all,
}
use cream_bots.Blacklist.Reloaded.{is_blacklisted-reload}
use cream_bots.Blacklist.Added.{IsUnknown, IsNameOf, is_added, update_blacklist-cases}

abbrev pub files : BlacklistType → Option (List String)
files pool_list = some ("0xa" ∷ "0xb" ∷ "0xa" ∷ [])
files _ = none

abbrev updates : List (String × String)
updates = ("tokens", "0xd") ∷ ("routers", "0xe") ∷ ("pools", "0xc") ∷ []

abbrev loaded : Service
loaded = load_blacklists (new_service files)

abbrev updated : Service
updated = update_all updates loaded

added_test : is_blacklisted "pools" "0xc" updated ≡ ok true
unfolding load_blacklists is_blacklisted update_all String_discrete
added_test = refl

absent_test : is_blacklisted "tokens" "0xc" updated ≡ ok false
unfolding load_blacklists is_blacklisted update_all String_discrete
absent_test = refl

unknown_test : is_blacklisted "routers" "0xe" updated ≡ raise key_error
unfolding is_blacklisted String_discrete
unknown_test = refl

is_blacklisted-reload_example :
    is_blacklisted "pools" "0xc" (load_blacklists updated) ≡ is_blacklisted "pools" "0xc" updated
is_blacklisted-reload_example = is_blacklisted-reload (new_service files) updates "pools" "0xc"

update_blacklist-cases_example :
    ((t : BlacklistType) × (after : Service) × IsNameOf "pools" t
      × (update_blacklist "pools" "0xd" loaded ≡ ok after)
      × ((u : BlacklistType) (b : String)
          → contains String_discrete (list_of u after.blacklists) b
            ≡ (is_added t "0xd" u b || contains String_discrete (list_of u loaded.blacklists) b)))
    ⊎ (IsUnknown "pools" × (update_blacklist "pools" "0xd" loaded ≡ raise key_error))
update_blacklist-cases_example = update_blacklist-cases "pools" "0xd" loaded
