-- ===== src/Http/Static.antt =====
-- `CacheStaticFiles` and `Gzip` of internal/platform/httpplatform/middleware.go, as what they do to
-- the headers and to the writer of a response.
use mathlib.Core.List.{reverse}
use star.Prelude.{ℕ, Bool, true, false, ◌&&◌, ◌||◌, not, List, [], ◌∷◌, ◌==◌, if◌then◌else◌}
use star.Http.Hosts

-- The loop of `filepath.Ext` from the last byte on, with the bytes after it.
unfoldable pub ext_from : List ℕ → List ℕ → List ℕ
ext_from [] after = []
ext_from (c ∷ before) after =
    let rest = ext_from before (c ∷ after) in
    if c == b'/' then [] else if c == b'.' then c ∷ after else rest

unfoldable pub ext : List ℕ → List ℕ
unfolding ext_from
ext path = ext_from (reverse path) []

abbrev pub cached : List (List ℕ)
cached =
    (b'.' ∷ b'c' ∷ b's' ∷ b's' ∷ [])
    ∷ (b'.' ∷ b'j' ∷ b's' ∷ [])
    ∷ (b'.' ∷ b's' ∷ b'v' ∷ b'g' ∷ [])
    ∷ (b'.' ∷ b'p' ∷ b'n' ∷ b'g' ∷ [])
    ∷ []

-- Whether `Cache-Control` is set. The next handler runs in any case.
unfoldable pub cache_static_files : List ℕ → Bool
cache_static_files path = Hosts.contains cached (ext path)

abbrev pub compressible : List (List ℕ)
compressible =
    []
    ∷ (b'.' ∷ b'h' ∷ b't' ∷ b'm' ∷ b'l' ∷ [])
    ∷ (b'.' ∷ b'c' ∷ b's' ∷ b's' ∷ [])
    ∷ (b'.' ∷ b'j' ∷ b's' ∷ [])
    ∷ (b'.' ∷ b'j' ∷ b's' ∷ b'o' ∷ b'n' ∷ [])
    ∷ (b'.' ∷ b'x' ∷ b'm' ∷ b'l' ∷ [])
    ∷ (b'.' ∷ b's' ∷ b'v' ∷ b'g' ∷ [])
    ∷ []

starts_with : List ℕ → List ℕ → Bool
starts_with [] text = true
starts_with (x ∷ part) [] = false
starts_with (x ∷ part) (c ∷ text) = x == c && starts_with part text

-- `strings.Contains`
contains_text : List ℕ → List ℕ → Bool
unfolding starts_with
contains_text part [] = starts_with part []
contains_text part (c ∷ text) = starts_with part (c ∷ text) || contains_text part text

-- Whether the body is compressed, and the headers say so.
pub gzip : List ℕ → List ℕ → Bool
unfolding contains_text
gzip accept_encoding path =
    if not (contains_text (b'g' ∷ b'z' ∷ b'i' ∷ b'p' ∷ []) accept_encoding)
    then false
    else Hosts.contains compressible (ext path)
