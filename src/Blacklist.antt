-- ===== src/Blacklist.antt =====
-- app/core/blacklist_service.py: BlacklistService, with its files.
pub mod Reloaded
pub mod Added
use cream_bots.Prelude.{
  String, String_discrete, Bool, true, false, Option, none, some, List, [], ◌∷◌, foldl, Result, ok,
  raise, key_error, ◌>>=◌, contains, add, holds, if◌then◌else◌,
}

-- The keys of the dictionary `blacklists`.
pub data BlacklistType : Type 0 where
  arb_list deployer_list pool_list token_list : BlacklistType

-- The dictionary itself; a set is the list of its items.
pub record Blacklists : Type 0 where
  pub arbs : List String
  pub deployers : List String
  pub pools : List String
  pub tokens : List String

-- `blacklists[...]`, at a key and at a text, which may be no key.
abbrev pub list_of : BlacklistType → Blacklists → List String
list_of arb_list lists = lists.arbs
list_of deployer_list lists = lists.deployers
list_of pool_list lists = lists.pools
list_of token_list lists = lists.tokens

abbrev pub set_list : BlacklistType → List String → Blacklists → Blacklists
set_list arb_list items lists = record lists { arbs = items }
set_list deployer_list items lists = record lists { deployers = items }
set_list pool_list items lists = record lists { pools = items }
set_list token_list items lists = record lists { tokens = items }

unfoldable pub type_named : String → Result BlacklistType
unfolding String_discrete
type_named name =
    if holds (String_discrete name "arbs")
    then ok arb_list
    else if holds (String_discrete name "deployers")
    then ok deployer_list
    else if holds (String_discrete name "pools")
    then ok pool_list
    else if holds (String_discrete name "tokens")
    then ok token_list
    else raise key_error

-- The service: its dictionary, whether `bot_state.blacklists` is this very dictionary, and the
-- content of the file of each type, if there is one.
pub record Service : Type 0 where
  pub blacklists : Blacklists
  pub shared : Bool
  pub files : BlacklistType → Option (List String)

-- `__init__`
abbrev pub new_service : (BlacklistType → Option (List String)) → Service
new_service files = record {
  blacklists = record { arbs = []; deployers = []; pools = []; tokens = [] };
  shared = false;
  files = files;
}

-- `set(items)`
unfoldable pub as_set : List String → List String
unfolding add String_discrete
as_set items = foldl (λ s a. add String_discrete a s) [] items

abbrev pub read_set : Option (List String) → List String
unfolding as_set
read_set none = []
read_set (some items) = as_set items

unfoldable pub load_blacklist : BlacklistType → Service → List String
unfolding as_set
load_blacklist t s = read_set (s.files t)

unfoldable pub load_blacklists : Service → Service
unfolding load_blacklist
load_blacklists s = record s {
  blacklists = record {
    arbs = load_blacklist arb_list s;
    deployers = load_blacklist deployer_list s;
    pools = load_blacklist pool_list s;
    tokens = load_blacklist token_list s;
  };
  shared = true;
}

-- `open(path, "w")`: the file of one type has a new content.
abbrev pub same_type : BlacklistType → BlacklistType → Bool
same_type arb_list arb_list = true
same_type deployer_list deployer_list = true
same_type pool_list pool_list = true
same_type token_list token_list = true
same_type _ _ = false

abbrev pub write_file :
    BlacklistType
    → List String
    → (BlacklistType → Option (List String))
    → BlacklistType
    → Option (List String)
write_file t items files u = if same_type t u then some items else files u

unfoldable pub update_blacklist : (blacklist_type address : String) → Service → Result Service
unfolding type_named add String_discrete
update_blacklist blacklist_type address s = do
  t ← type_named blacklist_type
  let items = add String_discrete address (list_of t s.blacklists)
  ok (record s {
    blacklists = set_list t items s.blacklists;
    shared = true;
    files = write_file t items s.files;
  })

unfoldable pub is_blacklisted : (blacklist_type address : String) → Service → Result Bool
unfolding type_named contains String_discrete
is_blacklisted blacklist_type address s = do
  t ← type_named blacklist_type
  ok (contains String_discrete (list_of t s.blacklists) address)

-- Any number of updates; one that raises leaves the service as it was.
unfoldable pub update_all : List (String × String) → Service → Service
unfolding update_blacklist
update_all [] s = s
update_all ((t, a) ∷ rest) s =
    update_all rest (elim (update_blacklist t a s) [ ok after ↦ after | raise _ ↦ s ])
