-- ===== src/Rtcm/Messages/Station.antt =====
-- The messages 1005 and 1006 as they are laid out in bits, and the decoder on them.
use babilcors.Prelude.{
  ℕ, suc, ◌-◌, ◌^◌, ◌<◌, ◌≡◌, refl, ap, subst, append-nil, true, ◌||◌, Option, none, some, List, [],
  ◌∷◌, ◌++◌, arith, ◌==◌,
}
use babilcors.Prelude.Bits.{bit_and-bit}
use babilcors.Prelude.Int.{ℤ, pos, negsuc}
use babilcors.Rtcm.BitReader.{◌>>=◌, pure}
use babilcors.Rtcm.BitReader.Bits.{
  to_bits, bits_of, Takes, Takes-pure, Takes-field, Takes-last, Takes-bind, Takes-start,
}
use babilcors.Rtcm.Messages.{
  Value, number, scaled, null, Info, signed38, s38, read_height, decode_coordinates,
  decode_1005_1006, parse_rtcm_1005_1006,
}

-- A station and its antenna reference point, in tenths of millimetres.
pub record StationPoint : Type 0 where
  pub station_id : ℕ
  pub itrf : ℕ
  pub gps : ℕ
  pub glonass : ℕ
  pub galileo : ℕ
  pub refstation : ℕ
  pub oscillator : ℕ
  pub quarter : ℕ
  pub x : ℤ
  pub y : ℤ
  pub z : ℤ
  pub height : Option ℕ

-- Two's complement in 38 bits.
abbrev pub word38 : ℤ → ℕ
word38 (pos n) = n
word38 (negsuc n) = 2 ^ 38 - suc n

abbrev pub Fits38 : ℤ → Type 0
Fits38 (pos n) = n < 2 ^ 37
Fits38 (negsuc n) = n < 2 ^ 37

signed38-word38 : (a : ℤ) → Fits38 a → signed38 (word38 a) ≡ a
signed38-word38 (pos n) h = ground (arith, bit_and-bit 37 n)
signed38-word38 (negsuc n) h = ground (arith, bit_and-bit 37 (2 ^ 38 - suc n))

word38-lt : (a : ℤ) → Fits38 a → word38 a < 2 ^ 38
word38-lt (pos n) h = omega arith
word38-lt (negsuc n) h = omega arith

abbrev pub FitsHeight : Option ℕ → Type 0
FitsHeight none = Unit
FitsHeight (some h) = h < 2 ^ 16

-- The fields of a point fit the widths of the message.
pub record FitsPoint (p : StationPoint) : Type 0 where
  pub station_id : p.station_id < 2 ^ 12
  pub itrf : p.itrf < 2 ^ 6
  pub gps : p.gps < 2
  pub glonass : p.glonass < 2
  pub galileo : p.galileo < 2
  pub refstation : p.refstation < 2
  pub oscillator : p.oscillator < 4
  pub quarter : p.quarter < 4
  pub x : Fits38 p.x
  pub y : Fits38 p.y
  pub z : Fits38 p.z
  pub height : FitsHeight p.height

-- Message 1006 has the height, message 1005 has none.
abbrev pub number_of : Option ℕ → ℕ
number_of none = 1005
number_of (some h) = 1006

abbrev pub height_bits : Option ℕ → List ℕ
height_bits none = []
height_bits (some h) = to_bits 16 h

abbrev pub height_value : Option ℕ → Value
height_value none = null
height_value (some h) = scaled (pos h)

abbrev pub coordinate_bits : StationPoint → List ℕ
coordinate_bits p =
    to_bits 38 (word38 p.x)
    ++ (to_bits 2 p.oscillator
        ++ (to_bits 38 (word38 p.y)
            ++ (to_bits 2 p.quarter ++ (to_bits 38 (word38 p.z) ++ height_bits p.height))))

abbrev pub message_bits : StationPoint → List ℕ
message_bits p =
    to_bits 12 (number_of p.height)
    ++ (to_bits 12 p.station_id
        ++ (to_bits 6 p.itrf
            ++ (to_bits 1 p.gps
                ++ (to_bits 1 p.glonass
                    ++ (to_bits 1 p.galileo ++ (to_bits 1 p.refstation ++ coordinate_bits p))))))

abbrev pub info_of : StationPoint → Info
info_of p =
    ("station_id", number p.station_id)
    ∷ ("ecef_x_m", scaled p.x)
    ∷ ("ecef_y_m", scaled p.y)
    ∷ ("ecef_z_m", scaled p.z)
    ∷ ("antenna_height_m", height_value p.height)
    ∷ []

s38-Takes : (a : ℤ) → Fits38 a → Takes s38 a (to_bits 38 (word38 a))
unfolding s38
s38-Takes a h =
    subst (λ b. Takes s38 b (to_bits 38 (word38 a))) (signed38-word38 a h)
      (Takes-last 38 (word38 a) signed38 (word38-lt a h))

read_height-Takes :
    (o : Option ℕ)
    → FitsHeight o
    → Takes (read_height (number_of o)) (height_value o) (height_bits o)
unfolding read_height
read_height-Takes none h = Takes-pure null
read_height-Takes (some v) h = Takes-last 16 v (λ hv. scaled (pos hv)) h

height_pure-Takes :
    {A : Type 0} (o : Option ℕ) (g : Value → A)
    → FitsHeight o
    → Takes (read_height (number_of o) >>= λ v. pure (g v)) (g (height_value o)) (height_bits o)
height_pure-Takes o g h =
    subst (Takes (read_height (number_of o) >>= λ v. pure (g v)) (g (height_value o)))
      (append-nil (height_bits o))
      (Takes-bind (read_height (number_of o)) (λ v. pure (g v)) (height_value o)
        (g (height_value o)) (height_bits o) [] (read_height-Takes o h) (Takes-pure _))

decode_coordinates-Takes :
    (p : StationPoint)
    → FitsPoint p
    → Takes (decode_coordinates (number_of p.height)) (info_of p) (
        to_bits 12 p.station_id
        ++ (to_bits 6 p.itrf
            ++ (to_bits 1 p.gps
                ++ (to_bits 1 p.glonass
                    ++ (to_bits 1 p.galileo ++ (to_bits 1 p.refstation ++ coordinate_bits p))))))
unfolding decode_coordinates
decode_coordinates-Takes p h = Takes-field 12 p.station_id _ _ _ h.station_id (
    Takes-field 6 p.itrf _ _ _ h.itrf (
      Takes-field 1 p.gps _ _ _ h.gps (
        Takes-field 1 p.glonass _ _ _ h.glonass (
          Takes-field 1 p.galileo _ _ _ h.galileo (
            Takes-field 1 p.refstation _ _ _ h.refstation (
              Takes-bind s38 _ p.x _ _ _ (s38-Takes p.x h.x) (
                Takes-field 2 p.oscillator _ _ _ h.oscillator (
                  Takes-bind s38 _ p.y _ _ _ (s38-Takes p.y h.y) (
                    Takes-field 2 p.quarter _ _ _ h.quarter (
                      Takes-bind s38 _ p.z _ _ _ (s38-Takes p.z h.z)
                        (height_pure-Takes p.height _ h.height)))))))))))

accepted : (o : Option ℕ) → ((number_of o == 1005) || (number_of o == 1006)) ≡ true
accepted none = refl
accepted (some h) = refl

number_of-lt : (o : Option ℕ) → number_of o < 2 ^ 12
number_of-lt none = omega arith
number_of-lt (some h) = omega arith

decode_1005_1006-Takes :
    (p : StationPoint) → FitsPoint p → Takes decode_1005_1006 (info_of p) (message_bits p)
unfolding decode_1005_1006
decode_1005_1006-Takes p h =
    Takes-field 12 (number_of p.height) _ _ _ (number_of-lt p.height)
      (rw (accepted p.height) (decode_coordinates-Takes p h))

-- A payload that begins with the bits of a message 1005 or 1006 is decoded to its station, its
-- signed coordinates, and its height where the message has one.
pub parse_rtcm_1005_1006-message :
    (p : StationPoint) (payload padding : List ℕ)
    → FitsPoint p
    → bits_of payload ≡ message_bits p ++ padding
    → parse_rtcm_1005_1006 payload ≡ some (info_of p)
unfolding parse_rtcm_1005_1006
parse_rtcm_1005_1006-message p payload padding h e =
    let (br, found) = Takes-start payload (message_bits p) padding (decode_1005_1006-Takes p h) e in
    ap (λ o. elim o [ none ↦ none | some (info, s) ↦ some info ]) found
