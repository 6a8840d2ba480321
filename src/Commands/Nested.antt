-- ===== src/Commands/Nested.antt =====
-- What a service that started has closed when it ends, and what is open when it never does.
use mathlib.Core.List.{Permᴰ}
use mathlib.Core.List.Permᴰ
use hedonify.Prelude.{ℕ, ◌≡◌, Bool, true, false, List, [], ◌∷◌, ◌++◌, map, ◌==◌, if◌then◌else◌}
use hedonify.Infra.Run.{
  Resource, tracer_provider, meter_provider, database, cache, queue, server, worker, Event,
  acquires, releases, abandons, System, returned, hangs, Command,
}

-- What is acquired is released once, the last first; resources that are acquired one after the
-- other may be released in any order.
pub data IsNested : List Event → Type 0 where
  nothing : IsNested []
  around :
      {es : List Event} (rs rs' : List Resource)
      → Permᴰ rs rs'
      → IsNested es
      → IsNested (map acquires rs ++ (es ++ map releases rs'))

abbrev pub single :
    {es : List Event} (r : Resource) → IsNested es → IsNested (acquires r ∷ (es ++ releases r ∷ []))
single r h = around (r ∷ []) (r ∷ []) (Permᴰ.refl (r ∷ [])) h

-- A run that returns, and has closed what it opened.
abbrev pub Closes : Command (Unit {0}) → System → System → Type 0
Closes c s s' = (es : List Event) × (c s ≡ returned es tt s') × IsNested es

abbrev number : Resource → ℕ
number tracer_provider = 0
number meter_provider = 1
number database = 2
number cache = 3
number queue = 4
number server = 5
number worker = 6

abbrev after_event : Resource → Bool → Event → Bool
after_event r b (acquires q) = if number q == number r then true else b
after_event r b (releases q) = if number q == number r then false else b
after_event r b (abandons q) = b

-- Whether a resource is open after some events, and whether it was before them.
abbrev pub is_open : Resource → Bool → List Event → Bool
is_open r b [] = b
is_open r b (e ∷ es) = is_open r (after_event r b e) es

-- A run that waits for ever, with the database and telemetry open and the cache closed.
pub record Hangs (c : Command (Unit {0})) (s s' : System) : Type 0 where
  pub events : List Event
  pub runs : c s ≡ hangs events s'
  pub tracer_open : is_open tracer_provider false events ≡ true
  pub meter_open : is_open meter_provider false events ≡ true
  pub database_open : is_open database false events ≡ true
  pub cache_closed : is_open cache false events ≡ false
