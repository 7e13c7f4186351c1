-- ===== src/Agent/HeatSource/Contract.antt =====
-- What `HeatSource.read` promises (agent/heat_source.py): no exception, a window that lasts.
use hadcd_agent.Base.{
  ◌≡◌, ◌↔◌, refl, sym, ap, inl, inr, Bool, true, Option, none, some, Bool-cases, Option-cases,
  is_some,
}
use mathlib.Core.Option.{some-ne-none}
use hadcd_agent.Base.Int.{ℤ, is_positive}
use hadcd_agent.Base.Json.{Value, null, bool, num, str, arr, obj, Fields, get_or}
use hadcd_agent.Agent.HeatSource.{
  Floats, as_number, as_int, returns, HeatReading, zero_reading, window_of, reading_of,
  parse_reading, http_read, Source, missing, unreadable, undecodable, holds, Flags, file_read,
}
use hadcd_agent.Agent.HeatSource.HomeAssistant.{
  HomeAssistant, dict_or_empty, state_reading, state_read, ha_read,
}

-- A time that has not run out
abbrev pub Lasts : Option ℤ → Type 0
Lasts w = (n : ℤ) × (w ≡ some n) × (is_positive n ≡ true)

-- An object whose attributes are neither empty nor an object
abbrev pub IsMisshapen : Value → Type 0
IsMisshapen null = ⊥
IsMisshapen (bool b) = ⊥
IsMisshapen (num d) = ⊥
IsMisshapen (str s) = ⊥
IsMisshapen (arr is) = ⊥
IsMisshapen (obj fs) = dict_or_empty (get_or "attributes" null fs) ≡ none

abbrev pub IsUndecodable : Source → Type 0
IsUndecodable missing = ⊥
IsUndecodable unreadable = ⊥
IsUndecodable undecodable = Unit
IsUndecodable (holds v) = ⊥

module _ (T : Type 0) (floats : Floats T) where
  window_of-Lasts :
      (v : Value) (w : ℤ) → is_positive w ≡ true → Lasts (some (window_of T floats v w))
  unfolding window_of
  window_of-Lasts v w p = elim (Option-cases (as_int v)) [
    | inl other ↦ rw (window_of, other) (w, refl, p)
    | inr (n, whole_e) ↦ elim (Bool-cases (is_positive n)) [
      | inl up ↦ rw (window_of, whole_e, up) (n, refl, up)
      | inr down ↦ rw (window_of, whole_e, down) (w, refl, p)
    ]
  ]

  reading_of-Lasts :
      (fs : Fields) (w : ℤ) (r : HeatReading T)
      → is_positive w ≡ true
      → reading_of T floats fs w ≡ some r
      → Lasts r.expected_window_sec
  unfolding reading_of
  reading_of-Lasts fs w r p e = elim (Option-cases (as_number (get_or "measured_kw" null fs))) [
    | inl other ↦ elim (some-ne-none r (sym (rw (reading_of, other) at e))) [ ]
    | inr (d, number) ↦
        let same =
          ap (λ o. elim o [ none ↦ none | some x ↦ x.expected_window_sec ])
            (rw (reading_of, number) at e) in
        rw (sym same) (window_of-Lasts (get_or "expected_window_sec" null fs) w p)
  ]

  -- With a positive default, every reading that a file or a URL gives has a positive window, whatever
  -- the JSON value holds.
  parse_reading-Lasts :
      (v : Value) (w : ℤ) (r : HeatReading T)
      → is_positive w ≡ true
      → parse_reading T floats v w ≡ some r
      → Lasts r.expected_window_sec
  unfolding parse_reading
  parse_reading-Lasts null w r p e = elim (some-ne-none r (sym e)) [ ]
  parse_reading-Lasts (bool b) w r p e = elim (some-ne-none r (sym e)) [ ]
  parse_reading-Lasts (num d) w r p e = elim (some-ne-none r (sym e)) [ ]
  parse_reading-Lasts (str s) w r p e = elim (some-ne-none r (sym e)) [ ]
  parse_reading-Lasts (arr is) w r p e = elim (some-ne-none r (sym e)) [ ]
  parse_reading-Lasts (obj fs) w r p e = reading_of-Lasts fs w r p e

  http-gives :
      (window : ℤ) (v : Value) (w : Bool)
      → is_some (http_read T floats window (returns v) w).reading ≡ true
  unfolding http_read
  http-gives window v w = elim (Option-cases (parse_reading T floats v window)) [
    | inl bad ↦ rw (http_read, bad) refl
    | inr (r, ok) ↦ rw (http_read, ok) refl
  ]

  some-gives : (r : HeatReading T) → ((some r ≡ none) ↔ ⊥)
  some-gives r = (some-ne-none r, λ bad. elim bad [ ])

  file-gives :
      (window : ℤ) (s : Source) (flags : Flags)
      → ((file_read T floats window s flags).2 ≡ none) ↔ IsUndecodable s
  unfolding file_read
  file-gives window missing flags = some-gives (zero_reading T floats)
  file-gives window unreadable flags = some-gives (zero_reading T floats)
  file-gives window undecodable flags = ((λ e. tt), (λ e. refl))
  file-gives window (holds v) flags = elim (Option-cases (parse_reading T floats v window)) [
    | inl bad ↦ rw (file_read, bad) (some-gives (zero_reading T floats))
    | inr (r, ok) ↦ rw (file_read, ok) (some-gives r)
  ]

  ha-gives :
      (ha : HomeAssistant T) (v : Value) (w : Bool)
      → ((ha_read T floats ha (returns v) w).reading ≡ none) ↔ IsMisshapen v
  unfolding ha_read state_read
  ha-gives ha null w = some-gives (zero_reading T floats)
  ha-gives ha (bool b) w = some-gives (zero_reading T floats)
  ha-gives ha (num d) w = some-gives (zero_reading T floats)
  ha-gives ha (str s) w = some-gives (zero_reading T floats)
  ha-gives ha (arr is) w = some-gives (zero_reading T floats)
  ha-gives ha (obj fs) w = elim (Option-cases (dict_or_empty (get_or "attributes" null fs))) [
    | inl bad ↦ rw (state_read, bad) ((λ e. refl), (λ e. refl))
    | inr (attrs, ok) ↦
        rw (state_read, ok)
          (
            (λ e. elim (some-ne-none (state_reading T floats ha fs attrs) e) [ ]),
            (λ e. elim (some-ne-none attrs e) [ ]),
          )
  ]

  -- Whatever value a response holds, the URL's read gives a reading. The file's read raises exactly
  -- on a file that is not UTF-8, and Home Assistant's, on a JSON response, exactly on an object whose
  -- attributes are not empty and no object.
  reads_raise :
      (window : ℤ) (ha : HomeAssistant T) (s : Source) (flags : Flags) (v : Value) (w : Bool)
      → (is_some (http_read T floats window (returns v) w).reading ≡ true)
        × (((file_read T floats window s flags).2 ≡ none) ↔ IsUndecodable s)
        × (((ha_read T floats ha (returns v) w).reading ≡ none) ↔ IsMisshapen v)
  reads_raise window ha s flags v w =
      (http-gives window v w, file-gives window s flags, ha-gives ha v w)
