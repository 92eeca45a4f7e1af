-- ===== src/Tests/Api.antt =====
-- A server with one shared account and one session for the theorems on core/internal/apiserver.
use abcmovies.Base.{
  Option, false, ◌≡◌, ◌≢◌, inr, refl, true, [], ◌∷◌, Text, text, Text-discrete, ℕ_discrete, blank,
  subst, text_key, none, some, lookup, insert, delete, contains, text_lt, insert_text, sort_strings,
  map_values, select_pairs, arith,
}
use abcmovies.Accounts.Record.{Account, Visibility, canon_users, canon_loop, CapChangePolicy}
use abcmovies.Accounts.Store.{Vault, add, save, remove, update, set_sharing, sharing}
use abcmovies.Accounts.Invariant.{IsCanonical, IsShape, IsRoster}
use abcmovies.Library.Reach.{Reach, authorized}
use abcmovies.Library.Service.{set_reach_sharing, sweep_user_caches}
use abcmovies.Delivery.Session.{
  Session, Status, is_active, AccountKey-discrete, index_of, remove_index, without, to_job,
}
use abcmovies.Delivery.Ending.{
  end_where, end_indexed, end_effects, unindex_all, revoke_others_on_account,
}
use abcmovies.Api.Requests.{
  Code, internal, UpdateAccountRequest, api_visibility, validate_update_account_request,
  validate_account_sharing, validate_sharing, check_members,
}
use abcmovies.Api.Handlers.{
  Server, Setting, update_account, remove_account, write_settings, go_live, same_members,
  same_visibility, tally, draws_down,
}
use abcmovies.Api.Cutoff.{Allowed}
use abcmovies.Api.Access.{IsGuarded, update_account-IsGuarded}
use abcmovies.Api.Removal.{remove_account-IsGuarded}
use abcmovies.Api.Link.{
  Linking, LinkAccountRequest, attach, store_account, link_account, validate_link_account_request,
}
use abcmovies.Api.Rollback.{Settled, Elsewhere, link_account-Settled}
use abcmovies.Tests.Accounts.{trim, account}
use abcmovies.Tests.Delivery.{first, wiring, fresh}

program : Unit {0}
unfolding Text-discrete ℕ_discrete blank lookup insert delete contains text_lt insert_text
    sort_strings map_values select_pairs canon_users canon_loop update set_sharing sharing
    authorized set_reach_sharing sweep_user_caches AccountKey-discrete index_of remove_index without
    end_where end_indexed end_effects unindex_all revoke_others_on_account api_visibility to_job
    validate_update_account_request validate_account_sharing validate_sharing check_members
    update_account write_settings go_live same_members same_visibility tally draws_down
program = tt

link_program : Unit {0}
unfolding add save remove validate_link_account_request attach store_account link_account
link_program = tt

abbrev linked : Account
linked = record account { visibility = Visibility.shared; shared_with = text "bob" ∷ [] }

abbrev reach : Reach
reach = record {
  provider = text "jellyfin";
  account_id = text "a";
  owner = text "ann";
  visibility = Visibility.shared;
  members = text "bob" ∷ [];
}

abbrev watching : Session
watching = record first {
  context = record first.context {
    provider = text "jellyfin";
    account_id = text "a";
    member_user_id = text "bob";
  };
}

abbrev server : Server
server = record {
  vault = record { records = (text "a", linked) ∷ []; blobs = [] };
  library = record { reaches = (text "a", reach) ∷ []; libraries = []; marked = [] };
  engine = record fresh { sessions = (text "del-1", watching) ∷ [] };
  events = [];
}

abbrev setting : Setting
setting = record {
  trim = trim;
  user_directory = none;
  wiring = wiring;
  cap_change_default = CapChangePolicy.new_sessions_only;
}

abbrev narrow : UpdateAccountRequest
narrow = record {
  account_id = text "a";
  sharing = some (record { visibility = 1; shared_with = [] });
  max_concurrent_streams = none;
  cap_change_policy = none;
}

abbrev narrowed : Server
narrowed = (update_account setting server (text "ann") narrow).0

succeeds : update_account setting server (text "ann") narrow ≡ (narrowed, none)
unfolding program
succeeds = refl

-- The session of the member that lost the account has ended.
ended :
    lookup (text "del-1") narrowed.engine.sessions
    ≡ some (record watching { status = Status.revoked; error = text "account sharing narrowed" })
unfolding program
ended = refl

only : {V : Type 0} (k q : Text) (v x : V) → lookup q ((k, v) ∷ []) ≡ some x → (k ≡ q) × (v ≡ x)
unfolding lookup
only k q v x h = ground arith

roster : IsRoster (text "bob" ∷ [])
unfolding blank
roster = (tt, λ u. ground arith)

server-IsCanonical : IsCanonical server.vault
server-IsCanonical id rec h =
    let (e, f) = only (text "a") id linked rec h in
    subst (λ (r : Account). (r.id ≡ id) × IsShape r.visibility r.shared_with) f (e, roster)

shared_with_bob : Allowed linked (text "bob")
unfolding program
shared_with_bob = inr refl

server-IsGuarded : IsGuarded server
server-IsGuarded = record {
  canonical = server-IsCanonical;
  allowed = λ id j u rec found there on.
      let (i, e) = only (text "del-1") id watching u found in
      let (k, f) = only (text "a") j linked rec there in
      subst (λ (a : Account). Allowed a u.context.member_user_id) f
        (subst (λ (v : Session). Allowed linked v.context.member_user_id) e shared_with_bob);
  matched = λ j rec r there found.
      let (k, f) = only (text "a") j linked rec there in
      let (k', g) = only (text "a") j reach r found in
      subst (λ (a : Account). (r.visibility ≡ a.visibility) × (r.members ≡ a.shared_with)) f
        (subst (λ (q : Reach). (q.visibility ≡ Visibility.shared) × (q.members ≡ text "bob" ∷ [])) g
          (refl, refl));
}

update_account-IsGuarded_example : IsGuarded narrowed
update_account-IsGuarded_example =
    update_account-IsGuarded setting server narrowed (text "ann") narrow server-IsGuarded succeeds

remove_account-IsGuarded_example :
    let (t, result) = remove_account server (text "ann") (text "a") in
    IsGuarded t
    × (result ≡ none
        → (lookup (text "a") t.vault.records ≡ none)
          × (lookup (text "a") t.vault.blobs ≡ none)
          × (lookup (text "a") t.library.reaches ≡ none)
          × ((id : Text) (u : Session)
              → lookup id t.engine.sessions ≡ some u
              → is_active u ≡ true
              → u.context.account_id ≢ text "a"))
remove_account-IsGuarded_example =
    remove_account-IsGuarded server (text "ann") (text "a") server-IsGuarded

abbrev link_request : LinkAccountRequest
link_request = record {
  provider = text "jellyfin";
  base_url = text "http://j";
  password = some (record { username = text "eve"; password = text "p" });
  visibility = 2;
  shared_with = text "bob" ∷ [];
  max_concurrent_streams = 2;
}

-- A slot that takes no account.
abbrev linking : Linking
linking = record {
  trim = trim;
  trim_right = λ url. url;
  user_directory = none;
  probers = (text "jellyfin", λ url username password. some (text "session")) ∷ [];
  attacher = some (λ rec. false);
}

abbrev link : Linking → Vault × Option Code
link y = link_account y server.vault (text "ann") (text "lnk") 5 link_request

taken_back : (link linking).1 ≡ some internal
unfolding program link_program
taken_back = refl

links : (link (record linking { attacher = none })).1 ≡ none
unfolding program link_program
links = refl

unknown : lookup (text "lnk") server.vault.records ≡ none
unfolding program
unknown = refl

unsaved : lookup (text "lnk") server.vault.blobs ≡ none
unfolding program
unsaved = refl

link_account-Settled_example :
    Settled (text "lnk") server.vault (link linking)
    × Elsewhere (text "lnk") server.vault (link linking).0
link_account-Settled_example =
    link_account-Settled linking server.vault (text "ann") (text "lnk") 5 link_request unknown
      unsaved
