-- ===== src/Broker/Delivery.antt =====
-- worker/broker/ingress.py: which delivery of a message this is, from its headers, and whether a refused
-- delivery goes back to its queue.
use scenario_pipeliner.Base.{
  ℕ, ◌+◌, ◌*◌, ◌-◌, Bool, false, not, ◌&&◌, ◌||◌, Option, none, some, leb, ◌==◌, if◌then◌else◌,
  is_some,
}
use Prim.Native.Char.{code}
use scenario_pipeliner.Text.{String, str_eq, strip}
use scenario_pipeliner.Json.{
  Json, null, bool, num, str, arr, obj, Items, nil, cons, Fields, end, field,
}
use scenario_pipeliner.Broker.Settings.{BrokerMessageMeta}

-- dict.get
unfoldable pub get : String → Fields → Option Json
get k end = none
get k (field j v rest) = if str_eq j k then some v else get k rest

-- one character of `int(text)`: the value so far, and whether a digit came before
abbrev digit_value : ℕ → ℕ → ℕ
digit_value acc c = if leb 48 c && leb c 57 then acc * 10 + (c - 48) else acc

digits : ℕ → Bool → String → Option ℕ
digits acc after_digit String.[] = if after_digit then some acc else none
digits acc after_digit (String.◌∷◌ c s) =
    let is_digit = leb 48 (code c) && leb (code c) 57 in
    let rest = digits (digit_value acc (code c)) is_digit s in
    if is_digit || code c == 95 && after_digit then rest else none

-- int(value); `none` is the TypeError or ValueError. Counts are not negative.
unfoldable pub int_of : Json → Option ℕ
unfolding digits strip
int_of null = none
int_of (bool b) = some (if b then 1 else 0)
int_of (num n) = some n
int_of (str s) = digits 0 false (strip s)
int_of (arr _) = none
int_of (obj _) = none

-- `int(entry["count"])` of one entry of x-death, where it has one
abbrev field_count : Option Json → ℕ
field_count none = 0
field_count (some v) = elim (int_of v) [ none ↦ 0 | some n ↦ n ]

unfoldable pub entry_count : Json → ℕ
unfolding get int_of
entry_count (obj fields) = field_count (get "count" fields)
entry_count _ = 0

unfoldable pub death_total : Items → ℕ
unfolding entry_count
death_total nil = 0
death_total (cons entry rest) = entry_count entry + death_total rest

abbrev pub x_death_attempt : Option Json → Option ℕ
x_death_attempt (some (arr items)) =
    if death_total items == 0 then none else some (death_total items)
x_death_attempt _ = none

abbrev delivery_count : Option Json → Option ℕ
delivery_count none = none
delivery_count (some v) = int_of v

-- _counted_delivery_attempt
unfoldable pub counted_delivery_attempt : BrokerMessageMeta → Option ℕ
unfolding get int_of death_total
counted_delivery_attempt meta = elim (delivery_count (get "x-delivery-count" meta.headers)) [
  | some n ↦ some (n + 1)
  | none ↦ x_death_attempt (get "x-death" meta.headers)
]

unfoldable pub ingress_delivery_attempt : BrokerMessageMeta → ℕ
unfolding counted_delivery_attempt
ingress_delivery_attempt meta = elim (counted_delivery_attempt meta) [
  | some attempt ↦ attempt
  | none ↦ if meta.redelivered then 2 else 1
]

-- _requeue_within_cap
unfoldable pub requeue_within_cap : BrokerMessageMeta → ℕ → Bool
unfolding ingress_delivery_attempt counted_delivery_attempt
requeue_within_cap meta max_ingress_retries =
    if leb max_ingress_retries (ingress_delivery_attempt meta)
    then false
    else is_some (counted_delivery_attempt meta) || not meta.redelivered
