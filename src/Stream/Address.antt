-- ===== src/Stream/Address.antt =====
-- `LocalAddress` against the place that the next word is written to.
use sirit.Base.{◌≤◌, ◌<◌, ◌≡◌, ◌^◌, arith, length, length-take}
use sirit.Stream.{Stream, contents, local_address}

pub length-contents :
    (s : Stream) → s.insert_index ≤ length s.words → length (contents s) ≡ s.insert_index
unfolding contents
length-contents s h = length-take s.insert_index s.words h

-- Where the vector ends at the cursor, `LocalAddress` is where the next instruction starts.
pub local_address_lem :
    (s : Stream)
    → s.insert_index ≡ length s.words
    → s.insert_index < 2 ^ 32
    → local_address s ≡ length (contents s)
unfolding local_address contents
local_address_lem s tight small = omega (arith, length-take s.insert_index s.words (omega arith))

-- Where an earlier `Reserve` has left room behind the cursor, `LocalAddress` is past the place
-- where the next instruction starts, in a vector of less than 2 ^ 32 words.
pub local_address_slack :
    (s : Stream)
    → s.insert_index < length s.words
    → length s.words < 2 ^ 32
    → length (contents s) < local_address s
unfolding local_address contents
local_address_slack s loose small = omega (arith, length-take s.insert_index s.words (omega arith))
