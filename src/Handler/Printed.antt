-- ===== src/Handler/Printed.antt =====
-- What the parameter types of requests.go read from a value as a client prints it.
use concevoir_une_api_pagine.Prelude.{
  ℕ, ◌≤◌, ◌<◌, ◌^◌, [], false, Bytes, text_eq, ℤ, pos, ◌≡◌, refl, inl, inr, arith,
}
use concevoir_une_api_pagine.Errors.{ok}
use concevoir_une_api_pagine.Go.Strconv.{format_int}
use concevoir_une_api_pagine.Go.Strconv.RoundTrip.{parse_int-format_int, format_nat_head}
use concevoir_une_api_pagine.Cursor.FilterText.{IsSort}
use concevoir_une_api_pagine.Domain.{Sort, parse_sort, cap_limit}
use concevoir_une_api_pagine.Handler.Requests.{
  account_id_param, page_size_param, page_number_param, sort_order_param, page_size_value,
  page_number_value, sort_order_value,
}

format_int-nonempty : (n : ℕ) → text_eq (format_int (pos n)) [] ≡ false
unfolding format_int text_eq
format_int-nonempty n = let (c, s, e, _, _) = format_nat_head n in rw e refl

-- A positive number of 64 bits is read back from its decimal digits.
pub account_id_param-format_int :
    (n : ℕ) (old : ℤ) → 0 < n → n < 2 ^ 63 → account_id_param (format_int (pos n)) old ≡ ok (pos n)
unfolding account_id_param
account_id_param-format_int n old h l =
    rw (format_int-nonempty n, parse_int-format_int (pos n) (omega arith)) (ground arith)

pub page_size_param-format_int :
    (n : ℕ) (old : ℤ) → n < 2 ^ 63 → page_size_param (format_int (pos n)) old ≡ ok (pos n)
unfolding page_size_param
page_size_param-format_int n old l =
    rw (format_int-nonempty n, parse_int-format_int (pos n) (omega arith)) (ground arith)

pub page_number_param-format_int :
    (n : ℕ) (old : ℤ) → 0 < n → n < 2 ^ 63 → page_number_param (format_int (pos n)) old ≡ ok (pos n)
unfolding page_number_param
page_number_param-format_int n old h l =
    rw (format_int-nonempty n, parse_int-format_int (pos n) (omega arith)) (ground arith)

pub page_size_value_within : (n : ℕ) → 0 < n → n ≤ 100 → page_size_value (pos n) ≡ pos n
unfolding page_size_value cap_limit
page_size_value_within n h l = ground arith

pub page_number_value_positive : (n : ℕ) → 0 < n → page_number_value (pos n) ≡ pos n
unfolding page_number_value
page_number_value_positive n h = ground arith

pub sort_order_param_order : (s : Sort) (old : Bytes) → IsSort s → sort_order_param s old ≡ ok s
unfolding sort_order_param parse_sort text_eq
sort_order_param_order s old (inl e) = rw e refl
sort_order_param_order s old (inr e) = rw e refl

pub sort_order_value_order : (s : Sort) → IsSort s → sort_order_value s ≡ s
unfolding sort_order_value text_eq
sort_order_value_order s (inl e) = rw e refl
sort_order_value_order s (inr e) = rw e refl
