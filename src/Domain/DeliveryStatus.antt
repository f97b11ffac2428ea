-- ===== src/Domain/DeliveryStatus.antt =====
-- `DeliveryStatus` of src/domain.rs: its stored text, and the Recording status that goes with it.
use telegraph_center.Base.{String, ◌≡◌, refl, ◌↔◌, arith, ◌==◌, eq_iff, if◌then◌else◌}
use telegraph_center.Domain.Status.{Parsed, ok, unknown}

pub data DeliveryStatus : Type 0 where
  delivering delivered delivery_failed : DeliveryStatus

unfoldable pub as_str : DeliveryStatus → String
as_str delivering = "delivering"
as_str delivered = "delivered"
as_str delivery_failed = "delivery_failed"

unfoldable pub parse : String → Parsed DeliveryStatus
parse value =
    if value == "delivering"
    then ok delivering
    else if value == "delivered"
    then ok delivered
    else if value == "delivery_failed"
    then ok delivery_failed
    else unknown value

-- Reading back a stored status gives the status.
pub parse-as_str : (s : DeliveryStatus) → parse (as_str s) ≡ ok s
unfolding parse as_str
parse-as_str delivering = refl
parse-as_str _ = refl

as_str_of_parse : (v : String) (s : DeliveryStatus) → parse v ≡ ok s → v ≡ as_str s
unfolding parse as_str
as_str_of_parse v s h =
    ground (arith, eq_iff v "delivering", eq_iff v "delivered", eq_iff v "delivery_failed")

-- A text parses to a status exactly when it is the stored form of that status.
pub parse_iff : (v : String) (s : DeliveryStatus) → (parse v ≡ ok s) ↔ (v ≡ as_str s)
parse_iff v s = (as_str_of_parse v s, λ e. rw e (parse-as_str s))
