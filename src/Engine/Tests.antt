-- ===== src/Engine/Tests.antt =====
-- An engine that is built, started and stopped, and the theorems applied to it.
use ace_tun.Base.{List, get_elem?, ◌++◌, ◌+◌, true, false, none, some, [], ◌∷◌, ◌≡◌, refl, arith}
use ace_tun.Text.{Text, codes, text_eq}
use ace_tun.Addr.{v4, SocketAddr}
use ace_tun.Config.{http, socks5}
use ace_tun.Error.{ok}
use ace_tun.Platform.{PhysicalInterface, is_empty}
use ace_tun.Rule.Glob.{RegexCrate}
use ace_tun.State.{find_proxy_config}
use ace_tun.Engine.{Engine, or_set, StartHost, start, stop, is_running}
use ace_tun.Engine.Build.{Builder, new, proxy_config, build, engine_of, with_id}
use ace_tun.Engine.Build.Ids.{build-find_proxy_config}
use ace_tun.Engine.Life.{IsConsistent, built, step, started, stopped, Reach-IsConsistent}
use ace_tun.Engine.Life.Restore.{Reach-iface}
use ace_tun.Engine.Calls.{
  Run, idle, awaiting, over, claim, take, on_run, discover, create, open_device, give_up, store,
  release, signal, Watchdog, watchdog_crashes, finish, Action, schedule,
}
use ace_tun.Engine.Calls.Exclusive.{IsExclusive, calls-IsExclusive}
use ace_tun.Engine.Calls.Overlap.{adapters, misled, start_overtakes_teardown}
use ace_tun.Engine.Calls.Teardown.{ending, stop_finishes}

abbrev exact : RegexCrate
exact = record { Regex = Text; escape = λ t. t; new = λ t. some t; is_match = text_eq }

abbrev local : SocketAddr
local = record { ip = v4 0x7f000001; port = 8080 }

abbrev two_proxies : Builder
two_proxies =
    proxy_config (proxy_config (new local) (http (codes "127.0.0.1") 8080))
      (socks5 (codes "127.0.0.1") 1080)

unfoldable engine : Engine Text
unfolding engine_of new proxy_config http socks5 with_id
engine =
    engine_of exact two_proxies 7
      (with_id 0 (http (codes "127.0.0.1") 8080) ∷ with_id 1 (socks5 (codes "127.0.0.1") 1080) ∷ [])
      (record { rules = []; has_domain_rules = false })

is_built : build exact (λ a. codes "127.0.0.1") 7 two_proxies ≡ some (ok engine)
unfolding build engine http socks5 new proxy_config with_id
is_built = refl

build-find_proxy_config_example :
    find_proxy_config engine.shared (1 + 1) ≡ some (with_id 1 (socks5 (codes "127.0.0.1") 1080))
unfolding engine engine_of
build-find_proxy_config_example =
    build-find_proxy_config exact (λ a. codes "127.0.0.1") 7 two_proxies engine 1
      (with_id 1 (socks5 (codes "127.0.0.1") 1080)) is_built (omega arith) refl

abbrev wired : PhysicalInterface
wired = record { v4_index = some 4; v6_index = none }

abbrev wireless : PhysicalInterface
wireless = record { v4_index = some 9; v6_index = none }

abbrev host_with : PhysicalInterface → StartHost
host_with i = record { discovered = i; create = ok tt; opens = true }

engine-IsConsistent : IsConsistent engine
unfolding engine engine_of is_running
engine-IsConsistent = record { flag = refl; routes = refl }

abbrev up : Engine Text
up = (start (host_with wired) engine).0

up-IsConsistent : IsConsistent up
up-IsConsistent =
    Reach-IsConsistent engine-IsConsistent (step built (started (host_with wired) engine))

abbrev roamed : Engine Text
roamed = (start (host_with wireless) (stop up).0).0

up_iface : up.shared.iface ≡ some wired
unfolding start engine engine_of is_empty or_set
up_iface = refl

-- The machine moved to another network between the two starts.
Reach-iface_example : roamed.shared.iface ≡ some wired
Reach-iface_example =
    Reach-iface wired (step (step built (stopped up)) (started (host_with wireless) (stop up).0))
      up_iface

-- A start, a stop that gets as far as its wait, and a second start that overtakes the teardown.
abbrev racing : List Action
racing =
    claim
    ∷ on_run (discover true) 0
    ∷ on_run (create true) 0
    ∷ on_run (open_device true) 0
    ∷ on_run store 0
    ∷ take
    ∷ on_run release 0
    ∷ claim
    ∷ on_run (discover true) 1
    ∷ on_run (create true) 1
    ∷ on_run signal 0
    ∷ []

calls-IsExclusive_example : IsExclusive (schedule racing idle)
calls-IsExclusive_example = calls-IsExclusive racing

start_overtakes_teardown_example :
    (s : List Action) × (adapters (schedule s idle) ≡ 3) × (misled (schedule s idle) ≡ 2)
start_overtakes_teardown_example = start_overtakes_teardown 2

racing-adapters : (adapters (schedule racing idle) ≡ 2) × (misled (schedule racing idle) ≡ 1)
unfolding schedule
racing-adapters = (refl, refl)

abbrev waiting_run : Run
waiting_run = record {
  stage = awaiting;
  adapter = true;
  netstack = true;
  watchdog = Watchdog.waiting;
  signalled = true;
  through_tunnel = false;
}

stop_finishes_example :
    (q : Run) × (get_elem? (schedule (racing ++ ending 0) idle).runs 0 ≡ some q)
    × (q.stage ≡ over)
    × (q.adapter ≡ false)
unfolding schedule
stop_finishes_example = stop_finishes racing 0 waiting_run refl refl

-- A second start while the first is on its way finds the flag set; a watchdog that panics leaves the
-- teardown to the stop; a start that fails frees the flag.
second_start_is_refused : schedule (claim ∷ claim ∷ []) idle ≡ schedule (claim ∷ []) idle
unfolding schedule
second_start_is_refused = refl

panic_is_made_good :
    adapters (schedule (racing ++ on_run watchdog_crashes 0 ∷ on_run finish 0 ∷ []) idle) ≡ 1
unfolding schedule
panic_is_made_good = refl

failed_start_frees_the_flag :
    (schedule
      (claim ∷ on_run (discover true) 0 ∷ on_run (create false) 0 ∷ on_run give_up 0 ∷ [])
      idle).flag
    ≡ false
unfolding schedule
failed_start_frees_the_flag = refl
