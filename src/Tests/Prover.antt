-- ===== src/Tests/Prover.antt =====
-- The prover on responses with one sibling, with a bad root and with a bad sibling.
use zk_cosmos_eth_bridge.Common.{
  ◌≤◌, ◌<◌, ◌^◌, ◌≡◌, ◌≢◌, ◌↔◌, refl, true, Option, none, some, List, [], ◌∷◌, arith, Bytes, codes,
  replicate, take, ok, err, panic,
}
use zk_cosmos_eth_bridge.Common.Int.{pos}
use zk_cosmos_eth_bridge.Codec.Hex.{hex_decode}
use zk_cosmos_eth_bridge.Codec.Base64.{base64_decode}
use zk_cosmos_eth_bridge.Codec.BigEndian.{be_value, pack_words}
use zk_cosmos_eth_bridge.Codec.Decimal.{digits_onto, decimal, digits_value, sscanf_int}
use zk_cosmos_eth_bridge.Rpc.Types.{TxResponse, ResultData, MerkleProof}
use zk_cosmos_eth_bridge.Rpc.Client.{Node, new_cosmos_client, get_tx_details}
use zk_cosmos_eth_bridge.Rpc.Hash.{invalid_hash_format, decode_trimmed, decode_hash}
use zk_cosmos_eth_bridge.Rpc.Hash.Laws.{IsHash}
use zk_cosmos_eth_bridge.Circuit.Api.{bits_of, bits_value}
use zk_cosmos_eth_bridge.Circuit.Define.{ZkBridgeCircuit, merkle_depth, define}
use zk_cosmos_eth_bridge.Prover.Witness.{zero_hash, copy_32, leaf_index, proof_levels, make_witness}
use zk_cosmos_eth_bridge.Prover.Witness.Laws.{decode_all, merkle_root}
use zk_cosmos_eth_bridge.Prover.Witness.Included.{make_witness_iff}
use zk_cosmos_eth_bridge.Prover.Generate.{
  ProofPoints, ProofFile, Backend, IsProver, Generated, export_file, prove_and_export,
  generate_proof,
}
use zk_cosmos_eth_bridge.Prover.Generate.Laws.{
  with_root, zero_root, generate_proof_included, generate_proof_undecodable_root,
  generate_proof_undecodable_aunt,
}
use zk_cosmos_eth_bridge.Tests.Data.{
  toy_api, toy_api-IsGnark, leaf, sibling, root, leaf_hex, sibling_hex, root_hex,
}

abbrev pub merkle_proof : Bytes → List Bytes → MerkleProof
merkle_proof leaf_hash aunts = record {
  total = codes "2";
  index = codes "0";
  leaf_hash = leaf_hash;
  aunts = aunts;
}

abbrev pub response : Bytes → Bytes → List Bytes → TxResponse
response root_hash leaf_hash aunts =
    let result : ResultData = record {
      hash = codes "AB";
      tx_hash = [];
      height = codes "9";
      index = pos 0;
      tx_result = record { code = pos 0; events = [] };
      events = [];
      proof = record { root_hash = root_hash; proof = merkle_proof leaf_hash aunts };
    } in
    record {
      jsonrpc = codes "2.0";
      id = pos 1;
      result = result;
      error = record { code = pos 0; message = []; error_data = [] };
      hash = [];
      tx_hash = [];
      events = [];
      raw = [];
    }

abbrev pub node_of : TxResponse → Node
node_of resp = record { get = λ url. some (some []); unmarshal = λ body. some resp }

abbrev pub points : ProofPoints
points = record {
  ar = (codes "1", codes "2");
  bs_x = record { a0 = codes "4"; a1 = codes "3" };
  bs_y = record { a0 = codes "6"; a1 = codes "5" };
  krs = (codes "7", codes "8");
  commitments = [];
  commitment_pok = (codes "9", codes "10");
}

-- It proves what satisfies the circuit.
abbrev pub toy_backend : Backend (Unit {0})
toy_backend = record {
  compiles = true;
  go_mod_exists = true;
  opens = λ path. true;
  new_witness = λ w. true;
  prove = define toy_api;
  verify = λ p inputs. true;
  points = λ p. points;
  writes = λ path. true;
}

toy_backend-IsProver : IsProver toy_api toy_backend
toy_backend-IsProver = record { prove_satisfies = λ w h. split (define toy_api w) h }
  where
    split : (o : Option (Unit {0})) → o ≢ none → o ≡ some tt
    split none h = absurd (h refl)
    split (some u) h = refl

abbrev good : TxResponse
good = response root_hex leaf_hex (sibling_hex ∷ [])

abbrev good_file : ProofFile
good_file = record {
  a = (codes "1", codes "2");
  b = (codes "3", codes "4", codes "5", codes "6");
  c = (codes "7", codes "8");
  commitments = (codes "0", codes "0");
  commitment_pok = (codes "9", codes "10");
  public_inputs =
      codes "504403158265495552"
      ∷ codes "0"
      ∷ codes "0"
      ∷ codes "0"
      ∷ codes "0"
      ∷ codes "0"
      ∷ codes "0"
      ∷ codes "5"
      ∷ [];
}

abbrev good_proof : Generated
good_proof = record { root = root; tx = leaf; file = good_file }

get_tx_details-good : get_tx_details (node_of good) (new_cosmos_client []) (codes "AB") ≡ ok good
unfolding get_tx_details
get_tx_details-good = refl

generate_proof-good :
    generate_proof toy_backend (node_of good) [] (codes "AB") (codes "p") ≡ ok good_proof
unfolding generate_proof get_tx_details decode_hash decode_trimmed hex_decode base64_decode copy_32
    leaf_index sscanf_int make_witness proof_levels pack_words prove_and_export export_file decimal
    define be_value bits_of bits_value digits_onto digits_value
generate_proof-good = refl

leaf_index-good : leaf_index (codes "0") ≡ 0
unfolding leaf_index sscanf_int digits_value
leaf_index-good = refl

one_fits : 1 ≤ merkle_depth
one_fits = omega arith

zero_small : 0 < 2 ^ 63
zero_small = omega arith

index_small : leaf_index (codes "0") < 2 ^ 63
index_small = omega (arith, leaf_index-good)

generate_proof_included_example :
    (siblings : List Bytes) × (decode_all (sibling_hex ∷ []) ≡ some siblings)
    × (merkle_root toy_api.sha256 (leaf_index (codes "0")) siblings leaf ≡ root)
generate_proof_included_example =
    generate_proof_included toy_backend toy_api toy_api-IsGnark toy_backend-IsProver (node_of good)
      [] (codes "AB") (codes "p") generate_proof-good get_tx_details-good one_fits index_small

root-IsHash : IsHash root
root-IsHash = (ground arith, refl)

leaf-IsHash : IsHash leaf
leaf-IsHash = (ground arith, refl)

abbrev good_witness : ZkBridgeCircuit
good_witness = record {
  packed_root = 504403158265495552 ∷ 0 ∷ 0 ∷ 0 ∷ [];
  packed_tx_hash = 0 ∷ 0 ∷ 0 ∷ 5 ∷ [];
  proof_path = sibling ∷ replicate 31 zero_hash;
  proof_helper = replicate 32 0;
  actual_depth = 1;
}

make_witness-good : make_witness root leaf (sibling_hex ∷ []) 0 ≡ ok good_witness
unfolding make_witness proof_levels pack_words be_value decode_hash decode_trimmed hex_decode
    base64_decode
make_witness-good = refl

make_witness_iff_example :
    (siblings : List Bytes) × (decode_all (sibling_hex ∷ []) ≡ some siblings)
    × ((define toy_api good_witness ≡ some tt)
        ↔ (merkle_root toy_api.sha256 0 siblings leaf ≡ root))
make_witness_iff_example =
    make_witness_iff toy_api toy_api-IsGnark root leaf (sibling_hex ∷ []) 0 root-IsHash leaf-IsHash
      one_fits zero_small make_witness-good

-- A root that is no hash, with a leaf of zeros.
abbrev zero_hex : Bytes
zero_hex = codes "0000000000000000000000000000000000000000000000000000000000000000"

abbrev bad_root : TxResponse
bad_root = response (codes "zz") zero_hex []

get_tx_details-bad_root :
    get_tx_details (node_of bad_root) (new_cosmos_client []) (codes "AB") ≡ ok bad_root
unfolding get_tx_details
get_tx_details-bad_root = refl

abbrev zero_proof : Generated
zero_proof = record {
  root = zero_hash;
  tx = zero_hash;
  file = record {
    a = (codes "1", codes "2");
    b = (codes "3", codes "4", codes "5", codes "6");
    c = (codes "7", codes "8");
    commitments = (codes "0", codes "0");
    commitment_pok = (codes "9", codes "10");
    public_inputs = replicate 8 (codes "0");
  };
}

generate_proof-bad_root :
    generate_proof toy_backend (node_of bad_root) [] (codes "AB") (codes "p") ≡ ok zero_proof
unfolding generate_proof get_tx_details decode_hash decode_trimmed hex_decode base64_decode copy_32
    leaf_index sscanf_int make_witness proof_levels pack_words prove_and_export export_file decimal
    define be_value bits_of bits_value digits_onto digits_value
generate_proof-bad_root = refl

decode_hash-zz : decode_hash (codes "zz") ≡ err (invalid_hash_format (codes "zz"))
unfolding decode_hash decode_trimmed hex_decode base64_decode
decode_hash-zz = refl

get_tx_details-zero_root :
    get_tx_details (node_of (with_root zero_root bad_root)) (new_cosmos_client []) (codes "AB")
    ≡ ok (with_root zero_root bad_root)
unfolding get_tx_details
get_tx_details-zero_root = refl

generate_proof_undecodable_root_example :
    generate_proof toy_backend (node_of bad_root) [] (codes "AB") (codes "p")
    ≡ generate_proof toy_backend
        (node_of (with_root zero_root bad_root))
        []
        (codes "AB")
        (codes "p")
generate_proof_undecodable_root_example =
    generate_proof_undecodable_root toy_backend (node_of bad_root)
      (node_of (with_root zero_root bad_root)) [] (codes "AB") (codes "p") bad_root
      (invalid_hash_format (codes "zz")) get_tx_details-bad_root get_tx_details-zero_root refl
      decode_hash-zz

abbrev bad_aunt : TxResponse
bad_aunt = response root_hex leaf_hex (codes "zz" ∷ [])

get_tx_details-bad_aunt :
    get_tx_details (node_of bad_aunt) (new_cosmos_client []) (codes "AB") ≡ ok bad_aunt
unfolding get_tx_details
get_tx_details-bad_aunt = refl

decode_all-zz : decode_all (take merkle_depth (codes "zz" ∷ [])) ≡ none
unfolding decode_all decode_hash decode_trimmed hex_decode base64_decode
decode_all-zz = refl

generate_proof_undecodable_aunt_example :
    generate_proof toy_backend (node_of bad_aunt) [] (codes "AB") (codes "p") ≡ panic
generate_proof_undecodable_aunt_example =
    generate_proof_undecodable_aunt toy_backend (node_of bad_aunt) [] (codes "AB") (codes "p")
      bad_aunt get_tx_details-bad_aunt refl decode_all-zz
