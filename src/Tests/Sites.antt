-- ===== src/Tests/Sites.antt =====
-- A server with one site, one shared network and one alias, on which sites are created and changed.
use apod.Base.{
  ◌≡◌, refl, sym, ◌∙◌, string_eq, Bool, true, false, String, some, List, [], ◌∷◌, ok, err, conflict,
  plain, wrap, ◌⊎◌, arith, find, any, update_where, delete_where, split,
}
use apod.Base.Names.{all_chars, replace_char}
use apod.Db.{SiteStmt}
use apod.Db.Sites.{
  SiteRow, NetworkRow, has_domain, has_name, create_site, get_site, list_sites, update_site_status,
  update_site_owner, delete_site, routes_to, delete_site_child_data, delete_others, add_other,
  add_domain, remove_domain_for_site, list_domains, site_of_domain, get_site_by_domain,
  list_site_networks, remove_site_from_all_networks, user_known,
}
use apod.Process.Locks.{new_lock_manager, acquire, release}
use apod.Sites.{World, State, SiteEngine, with_lock}
use apod.Sites.Domains.{
  is_label, all_labels, validate_domain, is_owner_name, validate_owner, validate_branch,
  validate_repo, validate_opts, internal_id,
}
use apod.Sites.Params.{validate_params}
use apod.Sites.Distinct.{IsDistinct}
use apod.Sites.Creation.{
  CreateSiteOpts, check_alias, check_collision, reclaim, or_reclaim, claim, provision, register,
  finish, conclude, install, create_locked, create_hosted_site,
}
use apod.Sites.Creation.Apart.{create_hosted_site-IsDistinct}
use apod.Sites.Creation.Outcome.{Owned, create_hosted_site-Owned}
use apod.Sites.Creation.Cleanup.{create_hosted_site-error}
use apod.Sites.Destruction.{
  forget, delete_rows, without, remove_each, remove_containers, destroy_native, destroy_as,
  destroy_locked, destroy_site,
}
use apod.Sites.Destruction.Gone.{Vanished, destroy_site-Vanished}
use apod.Sites.Networks.Tenants.{IsOneTenant}
use apod.Sites.Networks.History.{NetworkCall, after_calls, Separated, after_calls-Separated}
use apod.Sites.Networks.Bridges.{is_at, is_attached, Disconnects}
use apod.Sites.Networks.{leave_all_networks, leave_each, disconnect_all, disconnect_site, leaves}
use apod.Sites.Transfer.{detach, transfer_site}
use apod.Sites.Transfer.Membership.{Moved, transfer_site-Moved, transfer_site-bridges}
use apod.Sites.Aliases.{apply_alias_routing, route_alias, add_alias_locked, add_alias, remove_alias}
use apod.Sites.Aliases.Removal.{IsSpared, remove_alias-IsSpared}
use apod.Sites.Power.{start_site, stop_site, restart_site}
use apod.Sites.Power.Switched.{Switched, power-Switched}

abbrev world : World
world = record {
  down = λ s. false;
  fails = λ c. false;
  load = λ d. ok (record { is_compose = false; parameters = [] });
  is_float = λ s. true;
  prepare = λ d. ok tt;
  launch = λ d. ok tt;
  marks_error = true;
  purge = λ d. ok tt;
  route = λ d. ok tt;
  now = 7;
}

-- The memberships of a site cannot be listed.
abbrev is_listing : SiteStmt → Bool
is_listing SiteStmt.list_site_networks = true
is_listing s = false

abbrev pub site : SiteRow
site = record {
  id = 1;
  domain = "a.com";
  driver = "php";
  status = "running";
  ram = "512M";
  cpu = "1";
  storage = "";
  repo = "";
  branch = "";
  owner = "alice";
}

abbrev state : State
state = record {
  db = record {
    sites = site ∷ [];
    next_site_id = 2;
    domains =
        record { site_id = 1; domain = "a.com"; is_primary = true }
        ∷ record { site_id = 1; domain = "www.a.com"; is_primary = false }
        ∷ [];
    networks = record { name = "team"; owner = "alice" } ∷ [];
    members = record { network = "team"; site_domain = "a.com" } ∷ [];
    children = record { kind = "backups"; site_domain = "a.com" } ∷ [];
    others = record { kind = "site_secrets"; site_domain = "a.com" } ∷ [];
    user_names = "alice" ∷ "bob" ∷ [];
  };
  containers = record { id = "c1"; site = "a.com"; running = true } ∷ [];
  links = record { network = "team"; container = "c1" } ∷ [];
}

abbrev server : SiteEngine
server = record { locks = new_lock_manager; state = state }

abbrev opts : String → CreateSiteOpts
opts domain = record {
  domain = domain;
  driver = "php";
  ram = "";
  cpu = "";
  storage = "";
  repo = "";
  branch = "";
  owner = "bob";
  params = [];
}

created : (create_hosted_site world (opts "b.org") server).1 ≡ ok tt
unfolding create_hosted_site create_locked check_alias check_collision claim or_reclaim install
    provision conclude finish register with_lock acquire release validate_opts validate_domain
    validate_owner validate_repo validate_branch all_labels is_label all_chars is_owner_name split
    get_site_by_domain site_of_domain list_sites create_site get_site add_other update_site_status
    add_domain find any internal_id replace_char update_where validate_params
created = refl

create_hosted_site-Owned_example :
    Owned world (opts "b.org") state (create_hosted_site world (opts "b.org") server).0.state
create_hosted_site-Owned_example = create_hosted_site-Owned world (opts "b.org") server created

taken :
    (create_hosted_site world (opts "a.com") server).1
    ≡ err (conflict "site %q already exists (status: %s)")
unfolding create_hosted_site create_locked check_alias check_collision claim or_reclaim reclaim
    install provision conclude finish register with_lock acquire release validate_opts
    validate_domain validate_owner validate_repo validate_branch all_labels is_label all_chars
    is_owner_name split get_site_by_domain site_of_domain list_sites create_site get_site add_other
    update_site_status add_domain find any internal_id replace_char update_where validate_params
taken = refl

create_hosted_site-error_example :
    ((create_hosted_site world (opts "a.com") server).0.state ≡ state)
    ⊎ (any (has_domain "a.com") (create_hosted_site world (opts "a.com") server).0.state.db.sites
        ≡ false)
create_hosted_site-error_example =
    create_hosted_site-error world (opts "a.com") server
      (conflict "site %q already exists (status: %s)") refl taken

state-IsDistinct : IsDistinct state
unfolding any
state-IsDistinct = (refl, tt)

create_hosted_site-IsDistinct_example :
    IsDistinct (create_hosted_site world (opts "a-com") server).0.state
create_hosted_site-IsDistinct_example =
    create_hosted_site-IsDistinct world (opts "a-com") server refl state-IsDistinct

destroyed : (destroy_site world "a.com" true server).1 ≡ ok tt
unfolding destroy_site destroy_locked destroy_as destroy_native remove_containers remove_each
    without delete_rows forget with_lock acquire release validate_domain all_labels is_label
    all_chars split get_site delete_site delete_others find any delete_where routes_to
    remove_site_from_all_networks delete_site_child_data
destroyed = refl

destroy_site-Vanished_example :
    Vanished world "a.com" true (destroy_site world "a.com" true server).0.state
destroy_site-Vanished_example = destroy_site-Vanished world "a.com" true server refl destroyed

state-IsOneTenant : IsOneTenant state
unfolding any find
state-IsOneTenant = record {
  present = λ network domain m. ground arith;
  same_owner = λ network domain n s m f g. owners network domain n s f g;
}
  where
    owners :
        (network domain : String) (n : NetworkRow) (s : SiteRow)
        → find (has_name network) state.db.networks ≡ some n
        → find (has_domain domain) state.db.sites ≡ some s
        → s.owner ≡ n.owner
    owners network domain n s f g = ground arith

abbrev history : List NetworkCall
history =
    NetworkCall.create_call "club" "bob"
    ∷ NetworkCall.add_call "club" "a.com"
    ∷ NetworkCall.transfer_call "a.com" "bob"
    ∷ NetworkCall.add_call "club" "a.com"
    ∷ NetworkCall.remove_call "team" "a.com"
    ∷ NetworkCall.delete_call "team"
    ∷ []

no_failure : Disconnects world
no_failure = record { listed = λ domain. refl; removed = λ network container. refl }

state-Separated : Separated state
unfolding any
state-Separated = record {
  tenants = state-IsOneTenant;
  bridged = record { one_site = λ id a b h k. one id a b h k; member = λ n m a. ground arith };
}
  where
    one :
        (id a b : String)
        → any (is_at id a) state.containers ≡ true
        → any (is_at id b) state.containers ≡ true
        → a ≡ b
    one id a b h k =
        sym ((string_eq.beq_iff "a.com" a).0 (ground arith))
        ∙ (string_eq.beq_iff "a.com" b).0 (ground arith)

after_calls-Separated_example :
    Separated (after_calls world history state)
    × ((network domain : String) (n : NetworkRow) (site : SiteRow)
        → is_attached network domain (after_calls world history state) ≡ true
        → find (has_name network) (after_calls world history state).db.networks ≡ some n
        → find (has_domain domain) (after_calls world history state).db.sites ≡ some site
        → site.owner ≡ n.owner)
after_calls-Separated_example =
    after_calls-Separated world refl refl no_failure history state state-Separated

transferred : (transfer_site world "a.com" "bob" state).1 ≡ ok tt
unfolding transfer_site detach leave_all_networks leave_each list_site_networks
    remove_site_from_all_networks get_site user_known update_site_owner find any update_where
    delete_where disconnect_all disconnect_site leaves
transferred = refl

transfer_site-Moved_example :
    Moved world "a.com" "bob" state (transfer_site world "a.com" "bob" state).0
transfer_site-Moved_example = transfer_site-Moved world "a.com" "bob" state transferred

abbrev broken : World
broken = record world { down = is_listing }

transferred_anyway : (transfer_site broken "a.com" "bob" state).1 ≡ ok tt
unfolding transfer_site detach leave_all_networks leave_each list_site_networks
    remove_site_from_all_networks get_site user_known update_site_owner find any update_where
    delete_where disconnect_all disconnect_site leaves
transferred_anyway = refl

transfer_site-bridges_example :
    ((transfer_site broken "a.com" "bob" state).0.db.members ≡ state.db.members)
    × ((s : SiteRow) × (find
            (has_domain "a.com")
            (transfer_site broken "a.com" "bob" state).0.db.sites
          ≡ some s)
        × (s.owner ≡ "bob"))
transfer_site-bridges_example =
    transfer_site-bridges broken "a.com" "bob" state refl transferred_anyway

alias_added : (add_alias world "a.com" "new.a.com" server).1 ≡ ok tt
unfolding add_alias add_alias_locked apply_alias_routing route_alias with_lock acquire release
    validate_domain all_labels is_label all_chars split get_site get_site_by_domain site_of_domain
    add_domain list_domains find any delete_where
alias_added = refl

-- The routing of the aliases cannot be written.
abbrev unrouted : World
unrouted = record world { route = λ d. err (plain "disk full") }

alias_refused :
    (add_alias unrouted "a.com" "new.a.com" server).1
    ≡ err (wrap "apply alias routing: %w" (plain "disk full"))
unfolding add_alias add_alias_locked apply_alias_routing route_alias with_lock acquire release
    validate_domain all_labels is_label all_chars split get_site get_site_by_domain site_of_domain
    add_domain list_domains find any delete_where remove_domain_for_site
alias_refused = refl

site-found : find (has_domain "a.com") state.db.sites ≡ some site
unfolding find
site-found = refl

remove_alias-IsSpared_example :
    IsSpared "a.com" 1 state.db (remove_alias world "a.com" "www.a.com" server).0.state
remove_alias-IsSpared_example =
    remove_alias-IsSpared world "a.com" "www.a.com" server site site-found

power-Switched_example :
    ((start_site world "a.com" server).1 ≡ ok tt
      → Switched world "a.com" true "running" (start_site world "a.com" server).0.state)
    × ((stop_site world "a.com" server).1 ≡ ok tt
        → Switched world "a.com" false "stopped" (stop_site world "a.com" server).0.state)
    × ((restart_site world "a.com" server).1 ≡ ok tt
        → Switched world "a.com" true "running" (restart_site world "a.com" server).0.state)
power-Switched_example = power-Switched world "a.com" server
