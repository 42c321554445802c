-- ===== src/Registar/Admin/Bandwidth.antt =====
-- The bandwidth of internal/registar/admin/admin.go: the buckets of the last ticks, in order.
use native.Mathlib.Nat.{mod-add-mod, le-div_iff_mul-le}
use star.Prelude.{
  subst, ℕ, zero, suc, ◌+◌, ◌-◌, ◌%◌, ◌/◌, ◌^◌, ◌≤◌, ◌<◌, ◌≡◌, refl, sym, ap, ◌∙◌, Option, none,
  some, List, [], ◌∷◌, ◌++◌, length, get_or, set, length-map, length-set, length-replicate,
  replicate, tabulate, tabulate_ext, map, ltb, if◌then◌else◌, arith,
}
use mathlib.Core.List.{append_assoc, append-nil}
use star.Web.Sse.{RingBuffer}
use star.Web.Sse.History.{Holds, place, added, added-Holds, push_line}
use star.Web.Sse.Laws.{last, push_line-last, drop_nil}
use star.Registar.Admin.{
  BwBucket, zero_bucket, Admin, new_admin, bw_window, scrape, handle_bandwidth,
}

-- The ring of the page as a ring buffer.
abbrev ring_of : List BwBucket → ℕ → ℕ → RingBuffer BwBucket
ring_of ring head count = record {
  cells = map some ring;
  r = head;
  count = count;
  capacity = length ring;
}

map-set :
    (xs : List BwBucket) (i : ℕ) (b : BwBucket)
    → map some (set xs i b) ≡ set (map some xs) i (some b)
map-set [] i b = refl
map-set (x ∷ xs) zero b = refl
map-set (x ∷ xs) (suc i) b = ap (◌∷◌ (some x)) (map-set xs i b)

get_or-map-some :
    (xs : List BwBucket) (i : ℕ) (b : BwBucket)
    → get_or (map some xs) i none ≡ some b
    → get_or xs i zero_bucket ≡ b
get_or-map-some [] i b h = absurd (ground arith)
get_or-map-some (x ∷ xs) zero b h = ground arith
get_or-map-some (x ∷ xs) (suc i) b h = get_or-map-some xs i b h

tabulate-get_or :
    (xs : List BwBucket) (d : BwBucket) → tabulate (λ i. get_or xs i d) (length xs) ≡ xs
tabulate-get_or [] d = refl
tabulate-get_or (x ∷ xs) d = ap (◌∷◌ x) (tabulate-get_or xs d)

last_nil : (n : ℕ) → last {A = BwBucket} n [] ≡ []
unfolding last
last_nil n = drop_nil (0 - n)

module _ {Key Addr : Type 0} where
  abbrev pub Keeps : Admin Key Addr → List BwBucket → Type 0
  Keeps a buckets = Holds (ring_of a.bw_ring a.bw_head a.bw_count) buckets

  bucket_place :
      (a : Admin Key Addr) (buckets : List BwBucket) (i : ℕ)
      → Keeps a buckets
      → i < a.bw_count
      → get_or a.bw_ring
          (((a.bw_head + length a.bw_ring - a.bw_count) % length a.bw_ring + i) % length a.bw_ring)
          zero_bucket
        ≡ get_or buckets i zero_bucket
  bucket_place a buckets i h lt =
      let n = length a.bw_ring in
      ap (λ (k : ℕ). get_or a.bw_ring k zero_bucket) (mod-add-mod (a.bw_head + n - a.bw_count) n i)
      ∙ get_or-map-some a.bw_ring (place n a.bw_head a.bw_count i) (get_or buckets i zero_bucket)
          (h.values i zero_bucket lt)

  handle_bandwidth_lem :
      (a : Admin Key Addr) (buckets : List BwBucket)
      → Keeps a buckets
      → handle_bandwidth a ≡ some buckets
  unfolding handle_bandwidth
  handle_bandwidth_lem a buckets h =
      let n = length a.bw_ring in
      let start = (a.bw_head + n - a.bw_count) % n in
      let all =
        tabulate_ext (λ i. get_or a.bw_ring ((start + i) % n) zero_bucket)
          (λ i. get_or buckets i zero_bucket) a.bw_count (λ i lt. bucket_place a buckets i h lt) in
      let same = ap (tabulate (λ i. get_or buckets i zero_bucket)) (sym h.counted) in
      ground (arith, h.positive, all, same, tabulate-get_or buckets zero_bucket)

  scraped : Admin Key Addr → ℕ → ℕ → Admin Key Addr
  scraped a t current = record a {
    bw_last = current;
    bw_ring =
        set a.bw_ring a.bw_head (record { t = t; bytes = (current + 2 ^ 64 - a.bw_last) % 2 ^ 64 });
    bw_head = (a.bw_head + 1) % length a.bw_ring;
    bw_count = if ltb a.bw_count (length a.bw_ring) then a.bw_count + 1 else a.bw_count;
  }

  scraped-Keeps :
      (a : Admin Key Addr) (buckets : List BwBucket) (t current : ℕ)
      → Keeps a buckets
      → Keeps (scraped a t current) (
          push_line
            (length a.bw_ring)
            buckets
            (record { t = t; bytes = (current + 2 ^ 64 - a.bw_last) % 2 ^ 64 }))
  unfolding scraped
  scraped-Keeps a buckets t current h =
      let b : BwBucket = record { t = t; bytes = (current + 2 ^ 64 - a.bw_last) % 2 ^ 64 } in
      let rb = ring_of a.bw_ring a.bw_head a.bw_count in
      let same : added rb b
          ≡ ring_of (scraped a t current).bw_ring (scraped a t current).bw_head
              (scraped a t current).bw_count =
        ground (
          arith,
          length-map a.bw_ring (λ (x : BwBucket). some x),
          length-set a.bw_ring a.bw_head b,
          map-set a.bw_ring a.bw_head b,
        ) in
      subst (λ r. Holds r (push_line (length a.bw_ring) buckets b)) same
        (added-Holds rb buckets b h)

  -- Ticks with their times and the bytes relayed so far.
  pub scrape_all : Admin Key Addr → List (ℕ × ℕ) → Option (Admin Key Addr)
  scrape_all a [] = some a
  scrape_all a ((t, current) ∷ ticks) = elim (scrape a t current) [
    | none ↦ none
    | some a' ↦ scrape_all a' ticks
  ]

  scraped-size :
      (a : Admin Key Addr) (t current : ℕ) → length (scraped a t current).bw_ring ≡ length a.bw_ring
  unfolding scraped
  scraped-size a t current = length-set a.bw_ring a.bw_head _

  scrape_lem :
      (a : Admin Key Addr) (t current : ℕ)
      → 0 < length a.bw_ring
      → scrape a t current ≡ some (scraped a t current)
  unfolding scrape scraped
  scrape_lem a t current h = ground arith

  start-Keeps :
      (a : Admin Key Addr) (n : ℕ)
      → length a.bw_ring ≡ n
      → 0 < n
      → a.bw_head ≡ 0
      → a.bw_count ≡ 0
      → Keeps a (last n [])
  start-Keeps a n size pos head count = rw (last_nil n) (record {
    positive = omega arith;
    cells_size = length-map a.bw_ring some;
    at_r = omega arith;
    counted = omega arith;
    count_fits = omega arith;
    values = λ i b l. absurd (omega arith);
  })

-- Each tick has the bytes since the one before, modulo 2^64.
abbrev pub buckets_of : ℕ → List (ℕ × ℕ) → List BwBucket
buckets_of before [] = []
buckets_of before ((t, current) ∷ ticks) =
    (record { t = t; bytes = (current + 2 ^ 64 - before) % 2 ^ 64 }) ∷ buckets_of current ticks

module _ {Key Addr : Type 0} where
  scrape_all_lem :
      (a : Admin Key Addr) (n : ℕ) (seen : List BwBucket) (ticks : List (ℕ × ℕ))
      → length a.bw_ring ≡ n
      → Keeps a (last n seen)
      → (a' : Admin Key Addr) × (scrape_all a ticks ≡ some a')
        × Keeps a' (last n (seen ++ buckets_of a.bw_last ticks))
  unfolding scrape_all scraped
  scrape_all_lem a n seen [] size h =
      (a, refl, subst (λ xs. Keeps a (last n xs)) (sym (append-nil seen)) h)
  scrape_all_lem a n seen ((t, current) ∷ ticks) size h =
      let b : BwBucket = record { t = t; bytes = (current + 2 ^ 64 - a.bw_last) % 2 ^ 64 } in
      let a1 = scraped a t current in
      let same : push_line (length a.bw_ring) (last n seen) b ≡ last n (seen ++ b ∷ []) =
        ap (λ (k : ℕ). push_line k (last n seen) b) size
        ∙ push_line-last n seen b (omega (arith, h.positive, size)) in
      let (a', run, keeps) =
        scrape_all_lem a1 n (seen ++ b ∷ []) ticks (scraped-size a t current ∙ size)
          (subst (λ xs. Keeps a1 xs) same (scraped-Keeps a (last n seen) t current h)) in
      (
        a',
        ground (arith, scrape_lem a t current h.positive, run),
        subst (λ xs. Keeps a' (last n xs)) (append_assoc seen (b ∷ []) (buckets_of current ticks))
            keeps,
      )

-- With an interval of at most a day, the page shows the last ticks, as many as there are intervals
-- in a day, in order, each with the bytes since the tick before, modulo 2^64.
pub handle_bandwidth-scrape_all :
    (Key Addr : Type 0) (interval : ℕ) (ticks : List (ℕ × ℕ))
    → 0 < interval
    → interval ≤ bw_window
    → elim (new_admin Key Addr interval) [
      | none ↦ none
      | some a ↦ elim (scrape_all a ticks) [ none ↦ none | some a' ↦ handle_bandwidth a' ]
    ]
      ≡ some (last (bw_window / interval) (buckets_of 0 ticks))
unfolding new_admin
handle_bandwidth-scrape_all Key Addr interval ticks pos le =
    let n = bw_window / interval in
    let a : Admin Key Addr = record {
      active_hosts = [];
      subscribers = [];
      bw_ring = replicate n zero_bucket;
      bw_head = 0;
      bw_count = 0;
      bw_last = 0;
    } in
    let size = length-replicate n zero_bucket in
    let many : 0 < n =
      (le-div_iff_mul-le {k = interval} {x = 1} {y = bw_window} pos).1 (omega arith) in
    let (a', run, keeps) = scrape_all_lem a n [] ticks size (start-Keeps a n size many refl refl) in
    ground (arith, run, handle_bandwidth_lem a' (last n (buckets_of 0 ticks)) keeps)
