-- ===== src/Subscription/Update/Examples.antt =====
-- Runs of value lists, and the theorems about them at concrete inputs.
use lightstreamer_rs.Base.{◌≡◌, refl, none, [], ◌∷◌, ok, err, codes, arith}
use lightstreamer_rs.Text.Utf8.{as_bytes, encode_char}
use lightstreamer_rs.Protocol.Errors.{field_value, no_baseline, too_few_tokens}
use lightstreamer_rs.Protocol.Diff.{as_sent}
use lightstreamer_rs.Subscription.Update.{
  ItemState, UpdateOutcome, unset, value, null, new, apply, field,
}
use lightstreamer_rs.Subscription.Update.Outcome.{Applied, apply-Applied}
use lightstreamer_rs.Subscription.Update.Fields.{
  AscendsIn, apply-AscendsIn, IsComplete, apply-IsComplete, field-apply_unchanged,
}

abbrev fresh : ItemState
fresh = record { fields = unset ∷ unset ∷ unset ∷ [] }

abbrev quoted : ItemState
quoted = record { fields = value (codes "foobar") as_sent ∷ value [] as_sent ∷ null ∷ [] }

abbrev patched : ItemState
patched = record { fields = value (codes "foo") as_sent ∷ value [] as_sent ∷ null ∷ [] }

abbrev first_changed : UpdateOutcome
first_changed = record { changed = 0 ∷ [] }

new-fresh : new 3 ≡ fresh
unfolding new
new-fresh = refl

first_update : (apply none fresh (codes "foobar|$|#")).0 ≡ quoted
unfolding apply as_bytes encode_char
first_update = refl

diff_and_run : apply none quoted (codes "^Td|^2") ≡ (patched, ok first_changed)
unfolding apply as_bytes encode_char
diff_and_run = refl

no_first_value : apply none fresh (codes "a||b") ≡ (fresh, err (field_value (no_baseline 1)))
unfolding apply as_bytes encode_char
no_first_value = refl

short_list : apply none quoted (codes "a|b") ≡ (quoted, err (field_value (too_few_tokens 2 3)))
unfolding apply as_bytes encode_char
short_list = refl

apply-Applied_example : Applied none quoted patched (codes "^Td|^2") first_changed
apply-Applied_example =
    apply-Applied none quoted patched (codes "^Td|^2") first_changed diff_and_run

apply-AscendsIn_example : AscendsIn 0 3 (0 ∷ [])
apply-AscendsIn_example =
    apply-AscendsIn none quoted patched (codes "^Td|^2") first_changed diff_and_run

apply-IsComplete_example : IsComplete patched
apply-IsComplete_example =
    apply-IsComplete none quoted patched (codes "^Td|^2") first_changed diff_and_run

field-apply_unchanged_example : field patched 2 ≡ field quoted 2
field-apply_unchanged_example =
    field-apply_unchanged none quoted patched (codes "^Td|^2") first_changed 2 diff_and_run
      (omega arith)
