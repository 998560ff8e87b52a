-- ===== src/Transfer/Tests.antt =====
-- The loops on a few partial operations, and the theorems at concrete inputs.
use boost_asio_study.Asio.Sample.{no_error}
use boost_asio_study.Base.{ℕ, ◌≡◌, ◌≤◌, ◌<◌, ◌++◌, refl, [], ◌∷◌, Bytes, codes, length, take, arith}
use boost_asio_study.Transfer.{
  returned, waits, Results, write_loop, read_loop, write_to_socket, read_from_socket, message_size,
}
use boost_asio_study.Transfer.Reads
use boost_asio_study.Transfer.Reads.{Chunks, arrived, read_loop_lem, async_read_same}
use boost_asio_study.Transfer.Writes
use boost_asio_study.Transfer.Writes.{write_loop_lem, async_write_same}

abbrev two_parts : Results
two_parts = (no_error, 2) ∷ (no_error, 3) ∷ []

write_loop_lem_example :
    let r = write_loop two_parts (codes "Hello") 0 in
    ((m : ℕ) × (r.1 ≡ take m (codes "Hello")))
    × (r.0 ≡ returned → r.1 ≡ codes "Hello")
    × (r.0 ≡ waits → length two_parts < length (codes "Hello"))
write_loop_lem_example =
    write_loop_lem two_parts (codes "Hello")
      ((λ fine left. (omega arith, omega arith)), ((λ fine left. (omega arith, omega arith)), tt))

two_parts_sent : write_loop two_parts (codes "Hello") 0 ≡ (returned, codes "Hello")
unfolding write_loop
two_parts_sent = refl

async_write_same_example :
    let begun = write_to_socket (codes "Hello") in
    Writes.as_loop (Writes.run_next two_parts begun.0 begun.1)
    ≡ write_loop two_parts (codes "Hello") 0
async_write_same_example = async_write_same two_parts b'H' (codes "ello")

abbrev three_chunks : Chunks
three_chunks = (no_error, codes "abc") ∷ (no_error, codes "d") ∷ (no_error, codes "efg") ∷ []

read_loop_lem_example :
    let r = read_loop three_chunks [] in
    (length r.1 ≤ message_size)
    × (r.0 ≡ returned → length r.1 ≡ message_size)
    × (r.0 ≡ waits → length three_chunks < message_size)
    × ((later : Bytes) × (arrived three_chunks ≡ r.1 ++ later))
read_loop_lem_example = read_loop_lem three_chunks (
  (λ fine left. (omega arith, omega arith)),
  ((λ fine left. (omega arith, omega arith)), ((λ fine left. (omega arith, omega arith)), tt)),
)

async_read_same_example :
    let begun = read_from_socket in
    Reads.as_loop (Reads.run_next three_chunks begun.0 begun.1 []) ≡ read_loop three_chunks []
async_read_same_example = async_read_same three_chunks
