-- ===== src/OclApi/Devices.antt =====
-- clGetDeviceInfo, which knows the name, the vendor and the type of the device.
use fpgaml.Common.{
  ℕ, zero, suc, ◌≤◌, ◌≡◌, ◌∙◌, refl, ap, inl, inr, if◌then◌else◌, ltb, Option, none, some, List, [],
  ◌∷◌, ◌++◌, length, drop, Outcome, ok, ◌>>=◌, arith, Bool-cases,
}
use fpgaml.Common.Names.{Name}
use fpgaml.Objects.{ClCode, cl_success, cl_invalid_value}
use fpgaml.OclApi.Programs.{overwrite}

-- "FPGA_ACCEL" and "ECOSCALE Consortium", each with the 0 that ends it
abbrev name_text : Name
name_text = b'F' ∷ b'P' ∷ b'G' ∷ b'A' ∷ b'_' ∷ b'A' ∷ b'C' ∷ b'C' ∷ b'E' ∷ b'L' ∷ 0 ∷ []

abbrev vendor_text : Name
vendor_text =
    b'E' ∷ b'C' ∷ b'O' ∷ b'S' ∷ b'C' ∷ b'A' ∷ b'L' ∷ b'E' ∷ b' ' ∷ b'C' ∷ b'o' ∷ b'n' ∷ b's' ∷ b'o'
    ∷ b'r' ∷ b't' ∷ b'i' ∷ b'u' ∷ b'm' ∷ 0 ∷ []

-- CL_DEVICE_TYPE_ACCELERATOR is 8, as an `unsigned` of four bytes.
abbrev type_bytes : List ℕ
type_bytes = 8 ∷ 0 ∷ 0 ∷ 0 ∷ []

pub data DeviceInfo : Type 0 where
  device_name device_vendor device_type other_device_info : DeviceInfo

-- One case of the switch: the code, and the array after it.
unfoldable pub give_info : List ℕ → ℕ → List ℕ → Outcome (ClCode × List ℕ)
give_info value param_value_size target =
    if ltb param_value_size (length value)
    then ok (cl_invalid_value, target)
    else (overwrite value target >>= λ t. ok (cl_success, t))

-- clGetDeviceInfo: the code, and the array after the call, if there is one.
unfoldable pub get_device_info :
    DeviceInfo → ℕ → Option (List ℕ) → Outcome (ClCode × Option (List ℕ))
unfolding give_info
get_device_info param_name param_value_size none = ok (cl_invalid_value, none)
get_device_info param_name param_value_size (some target) =
    (elim param_name [
      | device_name ↦ give_info name_text param_value_size target
      | device_vendor ↦ give_info vendor_text param_value_size target
      | device_type ↦ give_info type_bytes param_value_size target
      | other_device_info ↦ ok (cl_invalid_value, target)
    ])
    >>= λ (code, t). ok (code, some t)

drop-overwritten :
    (xs ys : List ℕ) (n : ℕ)
    → length xs ≤ n
    → length xs ≤ length ys
    → drop n (xs ++ drop (length xs) ys) ≡ drop n ys
drop-overwritten [] ys n le fits = refl
drop-overwritten (x ∷ xs) [] n le fits = absurd (omega arith)
drop-overwritten (x ∷ xs) (y ∷ ys) zero le fits = absurd (omega arith)
drop-overwritten (x ∷ xs) (y ∷ ys) (suc n) le fits =
    drop-overwritten xs ys n (omega arith) (omega arith)

-- The code is returned, and nothing past the first `n` bytes is touched.
abbrev StaysWithin : ℕ → List ℕ → Outcome (ClCode × List ℕ) → Type 0
StaysWithin n target result =
    (code : ClCode) × (t : List ℕ) × (result ≡ ok (code, t)) × (drop n t ≡ drop n target)

give_info-StaysWithin :
    (value : List ℕ) (n : ℕ) (target : List ℕ)
    → n ≤ length target
    → StaysWithin n target (give_info value n target)
unfolding give_info
give_info-StaysWithin value n target le = elim (Bool-cases (ltb n (length value))) [
  | inl big ↦ (cl_invalid_value, target, ground (arith, big), refl)
  | inr fits ↦
      let small : length value ≤ n = ground (arith, fits) in
      (
        cl_success,
        value ++ drop (length value) target,
        ground (arith, fits, small, le),
        drop-overwritten value target n small (omega arith),
      )
]

info_ends :
    (info : DeviceInfo) (n : ℕ) (target : List ℕ) (result : Outcome (ClCode × List ℕ))
    → get_device_info info n (some target) ≡ (result >>= λ (code, t). ok (code, some t))
    → StaysWithin n target result
    → (code : ClCode) × (t : List ℕ) × (get_device_info info n (some target) ≡ ok (code, some t))
      × (drop n t ≡ drop n target)
info_ends info n target result e (code, t, f, kept) =
    (code, t, e ∙ ap (λ r. r >>= λ (c, x). ok (c, some x)) f, kept)

-- For every query, on an array that has the size that the caller says: a code is returned, and
-- nothing past that size is touched.
pub get_device_info_lem :
    (info : DeviceInfo) (n : ℕ) (target : List ℕ)
    → n ≤ length target
    → (code : ClCode) × (t : List ℕ) × (get_device_info info n (some target) ≡ ok (code, some t))
      × (drop n t ≡ drop n target)
unfolding get_device_info
get_device_info_lem device_name n target le =
    info_ends device_name n target (give_info name_text n target) refl
      (give_info-StaysWithin name_text n target le)
get_device_info_lem device_vendor n target le =
    info_ends device_vendor n target (give_info vendor_text n target) refl
      (give_info-StaysWithin vendor_text n target le)
get_device_info_lem device_type n target le =
    info_ends device_type n target (give_info type_bytes n target) refl
      (give_info-StaysWithin type_bytes n target le)
get_device_info_lem other_device_info n target le =
    info_ends other_device_info n target (ok (cl_invalid_value, target)) refl
      (cl_invalid_value, target, refl, refl)
