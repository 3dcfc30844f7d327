-- ===== src/Tabs/Stops.antt =====
-- `tabStops` of expand.go.
use ba.Base.{
  ℕ, ◌+◌, ◌-◌, ◌*◌, ◌%◌, ◌^◌, Bool, true, false, not, ◌&&◌, ◌||◌, List, [], ◌∷◌, ◌++◌, Option, none,
  some, Bytes, ltb, leb, ◌==◌, if◌then◌else◌, drop, Result, ok, err, ◌>>=◌,
}

pub data TabError : Type 0 where
  extend_not_last increment_not_last too_large zero_size not_ascending exclusive : TabError
  slash_inside plus_inside invalid_character : Bytes → TabError

pub record TabStops : Type 0 where
  pub size : ℕ
  pub stops : List ℕ
  pub extend : ℕ
  pub increment : ℕ

abbrev pub no_stops : TabStops
no_stops = record { size = 0; stops = []; extend = 0; increment = 0 }

-- The first stop behind the column, and its index; `index` is that of the first stop of the list.
unfoldable pub find_stop : List ℕ → ℕ → ℕ → Option ℕ × ℕ
find_stop [] column index = (none, index)
find_stop (stop ∷ stops) column index =
    if◌then◌else◌ {A = Option ℕ × ℕ} (ltb column stop) (some stop, index)
      (find_stop stops column (index + 1))

-- The last of the stops, for a list that is not empty.
abbrev pub last_stop : List ℕ → ℕ
last_stop [] = 0
last_stop (stop ∷ []) = stop
last_stop (stop ∷ stop' ∷ stops) = last_stop (stop' ∷ stops)

-- The column of the stop, whether the stops are used up, and the new index.
pub record Next : Type 0 where
  pub stop : ℕ
  pub last : Bool
  pub index : ℕ

abbrev pub to_multiple : ℕ → ℕ → ℕ
to_multiple size column = column + (size - column % size)

unfoldable pub behind_stops : TabStops → ℕ → Option ℕ × ℕ → Next
behind_stops t column (some stop, index) = record { stop = stop; last = false; index = index }
behind_stops t column (none, index) =
    if ltb 0 t.extend
    then record { stop = to_multiple t.extend column; last = false; index = index }
    else if ltb 0 t.increment
    then record {
      stop = column + (t.increment - (column - last_stop t.stops) % t.increment);
      last = false;
      index = index;
    }
    else record { stop = column + 1; last = true; index = index }

unfoldable pub next : TabStops → ℕ → ℕ → Next
unfolding find_stop behind_stops
next t column index =
    if ltb 0 t.size
    then record { stop = to_multiple t.size column; last = false; index = index }
    else behind_stops t column (find_stop (drop index t.stops) column index)

-- The variables of `addTabSpec`.
pub record Spec : Type 0 where
  pub tabs : TabStops
  pub have_value : Bool
  pub value : ℕ
  pub extend_flag : Bool
  pub increment_flag : Bool

-- The closure `add`.
unfoldable pub add_value : Spec → Result TabError Spec
add_value p =
    if not p.have_value
    then ok p
    else if p.extend_flag
    then (if not (p.tabs.extend == 0)
        then err extend_not_last
        else ok (record p { tabs = record p.tabs { extend = p.value }; have_value = false }))
    else if p.increment_flag
    then (if not (p.tabs.increment == 0)
        then err increment_not_last
        else ok (record p { tabs = record p.tabs { increment = p.value }; have_value = false }))
    else ok (record p {
      tabs = record p.tabs { stops = p.tabs.stops ++ p.value ∷ [] };
      have_value = false;
    })

unfoldable pub add_digit : Spec → ℕ → Result TabError Spec
add_digit p ch =
    let value = (if p.have_value then p.value else 0) * 10 + (ch - b'0') in
    if ltb (2 ^ 31) value then err too_large else ok (record p { have_value = true; value = value })

-- The byte `ch` in front of `rest`.
unfoldable pub add_byte : Spec → ℕ → Bytes → Result TabError Spec
unfolding add_value add_digit
add_byte p ch rest =
    if (ch == b',') || ((ch == b' ') || (ch == 9))
    then add_value p
    else if ch == b'/'
    then (if p.have_value
        then err (slash_inside (ch ∷ rest))
        else ok (record p { extend_flag = true; increment_flag = false }))
    else if ch == b'+'
    then (if p.have_value
        then err (plus_inside (ch ∷ rest))
        else ok (record p { increment_flag = true; extend_flag = false }))
    else if leb b'0' ch && leb ch b'9'
    then add_digit p ch
    else err (invalid_character (ch ∷ rest))

unfoldable pub add_bytes : Spec → Bytes → Result TabError Spec
unfolding add_byte add_value
add_bytes p [] = add_value p
add_bytes p (ch ∷ rest) = add_byte p ch rest >>= λ p'. add_bytes p' rest

unfoldable pub add_tab_spec : TabStops → Bytes → Result TabError TabStops
unfolding add_bytes
add_tab_spec t spec =
    add_bytes
      (record {
        tabs = t;
        have_value = false;
        value = 0;
        extend_flag = false;
        increment_flag = false;
      })
      spec
    >>= λ p. ok p.tabs

abbrev pub holds_zero : List ℕ → Bool
holds_zero [] = false
holds_zero (stop ∷ stops) = if stop == 0 then true else holds_zero stops

abbrev pub ascending : List ℕ → Bool
ascending [] = true
ascending (stop ∷ []) = true
ascending (stop ∷ stop' ∷ stops) = if leb stop' stop then false else ascending (stop' ∷ stops)

-- The size for stops at equal distances, or none.
unfoldable pub settle_size : TabStops → List ℕ → TabStops
settle_size t [] = record t {
  size =
      if not (t.extend == 0) then t.extend else if not (t.increment == 0) then t.increment else 8;
}
settle_size t (stop ∷ []) =
    if (t.extend == 0) && (t.increment == 0) then record t { size = stop } else t
settle_size t (stop ∷ stop' ∷ stops) = t

unfoldable pub finalize : TabStops → Result TabError TabStops
unfolding settle_size
finalize t =
    if holds_zero t.stops
    then err zero_size
    else if not (ascending t.stops)
    then err not_ascending
    else if not (t.extend == 0) && not (t.increment == 0)
    then err exclusive
    else ok (settle_size t t.stops)
