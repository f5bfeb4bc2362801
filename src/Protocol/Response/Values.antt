-- ===== src/Protocol/Response/Values.antt =====
-- The values that have words of their own are read back from their words.
use lightstreamer_rs.Base.{◌≡◌, ◌≢◌, refl, ap, arith, true, false, Option, none, some, codes}
use lightstreamer_rs.Text.{Text, IsText, split_once, same_text-ne}
use lightstreamer_rs.Protocol.Arguments.{
  parse_max_frequency, parse_filtering, parse_bandwidth, parse_sequence, control_link_of,
  is_decimal_number,
}
use lightstreamer_rs.Protocol.Notifications.{
  MaxFrequency, FilteringMode, Bandwidth, MessageSequence, filtered, unfiltered, unmanaged,
  unspecified, named,
}
use lightstreamer_rs.Protocol.Response.Printer.{
  max_frequency_text, filtering_text, bandwidth_text, sequence_text, link_text, IsMaxFrequency,
  IsFiltering, IsBandwidth, IsSequence, IsLink,
}

decimal_number-ne :
    (number word : Text)
    → is_decimal_number number ≡ true
    → is_decimal_number word ≡ false
    → number ≢ word
decimal_number-ne number word d no_number e = cc (ap is_decimal_number e)

unlimited_no_number : is_decimal_number (codes "unlimited") ≡ false
unfolding is_decimal_number split_once
unlimited_no_number = refl

unmanaged_no_number : is_decimal_number (codes "unmanaged") ≡ false
unfolding is_decimal_number split_once
unmanaged_no_number = refl

pub max_frequency_lem :
    (m : MaxFrequency)
    → IsMaxFrequency m
    → IsText (max_frequency_text m) × (parse_max_frequency (max_frequency_text m) ≡ m)
unfolding parse_max_frequency
max_frequency_lem (MaxFrequency.limited number) (t, d) = (
  t,
  rw (
    same_text-ne number (codes "unlimited")
        (decimal_number-ne number (codes "unlimited") d unlimited_no_number),
    d,
  ),
)
max_frequency_lem MaxFrequency.unlimited h = (omega arith, refl)
max_frequency_lem (MaxFrequency.unrecognized literal) (t, ne, d) =
    (t, rw (same_text-ne literal (codes "unlimited") ne, d))

pub filtering_lem :
    (f : FilteringMode)
    → IsFiltering f
    → IsText (filtering_text f) × (parse_filtering (filtering_text f) ≡ f)
unfolding parse_filtering
filtering_lem filtered h = (omega arith, refl)
filtering_lem unfiltered h = (omega arith, refl)
filtering_lem (FilteringMode.unrecognized literal) (t, ne, ne') = (
  t,
  rw (same_text-ne literal (codes "filtered") ne, same_text-ne literal (codes "unfiltered") ne'),
)

pub bandwidth_lem :
    (b : Bandwidth)
    → IsBandwidth b
    → IsText (bandwidth_text b) × (parse_bandwidth (bandwidth_text b) ≡ b)
unfolding parse_bandwidth
bandwidth_lem (Bandwidth.limited kbps) (t, d) = (
  t,
  rw (
    same_text-ne kbps (codes "unlimited")
        (decimal_number-ne kbps (codes "unlimited") d unlimited_no_number),
    same_text-ne kbps (codes "unmanaged")
        (decimal_number-ne kbps (codes "unmanaged") d unmanaged_no_number),
    d,
  ),
)
bandwidth_lem Bandwidth.unlimited h = (omega arith, refl)
bandwidth_lem unmanaged h = (omega arith, refl)
bandwidth_lem (Bandwidth.unrecognized literal) (t, ne, ne', d) = (
  t,
  rw (same_text-ne literal (codes "unlimited") ne, same_text-ne literal (codes "unmanaged") ne', d),
)

pub sequence_lem :
    (s : MessageSequence)
    → IsSequence s
    → IsText (sequence_text s) × (parse_sequence (sequence_text s) ≡ s)
unfolding parse_sequence
sequence_lem unspecified h = (omega arith, refl)
sequence_lem (named sequence) (t, ne) = (t, rw (same_text-ne sequence (codes "*") ne))

pub link_lem :
    (link : Option Text)
    → IsLink link
    → IsText (link_text link) × (control_link_of (link_text link) ≡ link)
link_lem none h = (omega arith, refl)
link_lem (some link) (t, ne) = (t, rw (same_text-ne link (codes "*") ne))
