-- ===== src/Rss/Ids/Tests.antt =====
-- modules/rss: ids at the ends of their range, and the theorems at them.
use botje.Prelude.{
  Text, codes, text_beq, contains, Bool, false, some, ◌==◌, nat_eq, text_eq, ◌≡◌, refl, arith,
}
use botje.Rss.Ids.{encode, next}
use botje.Rss.Ids.Digits.{decode, decode-encode}
use botje.Rss.Ids.Alloc.{Found, next-Found}

abbrev busy : Text → Bool
busy id = id == codes "999"

last_id : encode 32767 ≡ codes "999"
unfolding encode
last_id = refl

first_id : encode 0 ≡ codes "A"
unfolding encode
first_id = refl

wraps_around : next 2 busy 32767 ≡ some (codes "B", 2)
unfolding next contains text_beq
wraps_around = refl

decode-encode_example : decode (encode 2049) ≡ 2049
decode-encode_example = decode-encode 2049

busy_free : busy (encode 1) ≡ false
unfolding encode text_beq
busy_free = refl

next-Found_example : Found busy (next 32768 busy 32767)
next-Found_example = next-Found busy 32767 1 (omega arith) (omega arith) (omega arith) busy_free
