-- ===== src/Transaction/Tokens.antt =====
-- The chains and the tokens, wallet-api/pkg/transaction/tokens.go.
use mpcium.Base.{
  ℕ, ◌+◌, ◌-◌, ◌&&◌, leb, if◌then◌else◌, Option, none, some, [], ◌∷◌, Str, codes, Dict, lookup, map,
}

-- strings.ToLower and strings.ToUpper of an ASCII text.
unfoldable pub to_lower : Str → Str
to_lower = map (λ c. if leb b'A' c && leb c b'Z' then c + 32 else c)

unfoldable pub to_upper : Str → Str
to_upper = map (λ c. if leb b'a' c && leb c b'z' then c - 32 else c)

-- chainIDs
abbrev pub chain_ids : Dict ℕ
chain_ids =
    (codes "ethereum", 1)
    ∷ ((codes "polygon", 137)
        ∷ ((codes "arbitrum", 42161) ∷ ((codes "base", 8453) ∷ ((codes "optimism", 10) ∷ []))))

-- tokenAddresses, by the texts of the addresses.
abbrev pub token_addresses : Dict (Dict Str)
token_addresses =
    (
      codes "ethereum",
      (codes "USDC", codes "0xA0b86991c6218b36c1d19D4a2e9Eb0cE3606eB48")
          ∷ ((codes "USDT", codes "0xdAC17F958D2ee523a2206206994597C13D831ec7") ∷ []),
    )
    ∷ ((
      codes "polygon",
      (codes "USDC", codes "0x3c499c542cEF5E3811e1192ce70d8cC03d5c3359")
          ∷ ((codes "USDT", codes "0xc2132D05D31c914a87C6611C10748AEb04B58e8F") ∷ []),
    )
        ∷ ((
          codes "arbitrum",
          (codes "USDC", codes "0xaf88d065e77c8cC2239327C5EDb3A432268e5831")
              ∷ ((codes "USDT", codes "0xFd086bC7CD5C481DCC9C85ebE478A1C0b69FCbb9") ∷ []),
        )
            ∷ ((
              codes "base",
              (codes "USDC", codes "0x833589fCD6eDb6E08f4c7C32D4f71b54bdA02913") ∷ [],
            )
                ∷ ((
                  codes "optimism",
                  (codes "USDC", codes "0x0b2C639c533813f4Aa9D7837CAf62653d097Ff85")
                      ∷ ((codes "USDT", codes "0x94b008aA00579c1307B0EF2c499aD98a8ce58e58") ∷ []),
                )
                    ∷ []))))

-- ChainID
unfoldable pub chain_id : Str → Option ℕ
unfolding to_lower
chain_id chain = lookup (to_lower chain) chain_ids

-- TokenAddress: the text of the address; `none` is an error, for an unknown chain or token.
unfoldable pub token_address : Str → Str → Option Str
unfolding to_lower to_upper
token_address chain token = elim (lookup (to_lower chain) token_addresses) [
  | none ↦ none
  | some tokens ↦ lookup (to_upper token) tokens
]

-- TokenDecimals
unfoldable pub token_decimals : Str → ℕ
token_decimals token = 6
