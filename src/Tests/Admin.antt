-- ===== src/Tests/Admin.antt =====
-- The admin page of internal/registar/admin at concrete inputs.
use native.Mathlib.Decide.{ℕ_discrete}
use star.Prelude.{ℕ, ◌*◌, ◌/◌, ◌≡◌, refl, none, some, List, [], ◌∷◌, arith}
use star.Prelude.Dict.{get}
use star.Registar.Server.{AddrPair, new_server}
use star.Registar.Admin.{Admin, bw_window, new_admin, handle_bandwidth}
use star.Registar.Admin.Bandwidth.{scrape_all, buckets_of, handle_bandwidth-scrape_all}
use star.Registar.Admin.HostList.{registers, ends, run, addrs_of, run-Lists, Lists}
use star.Web.Sse.Laws.{last}

abbrev half_day : ℕ
half_day = 12 * 3600 * 1000000000

abbrev ticks : List (ℕ × ℕ)
ticks = (1, 100) ∷ (2, 150) ∷ (3, 400) ∷ []

handle_bandwidth-scrape_all_example :
    elim (new_admin ℕ ℕ half_day) [
      | none ↦ none
      | some a ↦ elim (scrape_all a ticks) [ none ↦ none | some a' ↦ handle_bandwidth a' ]
    ]
    ≡ some (last (bw_window / half_day) (buckets_of 0 ticks))
handle_bandwidth-scrape_all_example =
    handle_bandwidth-scrape_all ℕ ℕ half_day ticks (omega arith) (omega arith)

two_buckets :
    last (bw_window / half_day) (buckets_of 0 ticks)
    ≡ (record { t = 2; bytes = 50 }) ∷ (record { t = 3; bytes = 250 }) ∷ []
unfolding last
two_buckets = refl

abbrev no_hosts : Admin ℕ ℕ
no_hosts = record {
  active_hosts = [];
  subscribers = [];
  bw_ring = [];
  bw_head = 0;
  bw_count = 0;
  bw_last = 0;
}

abbrev addrs : AddrPair ℕ
addrs = record { public_addr = 1; private_addr = 2 }

no_hosts-Lists : Lists ℕ_discrete (new_server ℕ ℕ ℕ) no_hosts
unfolding new_server get
no_hosts-Lists k = refl

run-Lists_example :
    get ℕ_discrete 7
      (run ℕ_discrete
        (new_server ℕ ℕ ℕ)
        no_hosts
        (registers 1 7 addrs ∷ ends 1 ∷ [])).1.active_hosts
    ≡ addrs_of (
        get ℕ_discrete 7
          (run ℕ_discrete (new_server ℕ ℕ ℕ) no_hosts (registers 1 7 addrs ∷ ends 1 ∷ [])).0.hosts)
run-Lists_example =
    run-Lists ℕ_discrete (new_server ℕ ℕ ℕ) no_hosts (registers 1 7 addrs ∷ ends 1 ∷ []) 7
      no_hosts-Lists
