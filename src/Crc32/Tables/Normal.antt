-- ===== src/Crc32/Tables/Normal.antt =====
-- The lookup tables of include/math/crc32.h for the registers that shift to the left.
use liblcb.Base.{ℕ, List, [], ◌∷◌}

unfoldable pub crc32_tbl256_04c11db7 : List ℕ
crc32_tbl256_04c11db7 =
    0x0000_0000 ∷ 0x04c1_1db7 ∷ 0x0982_3b6e ∷ 0x0d43_26d9 ∷ 0x1304_76dc ∷ 0x17c5_6b6b ∷ 0x1a86_4db2
    ∷ 0x1e47_5005 ∷ 0x2608_edb8 ∷ 0x22c9_f00f ∷ 0x2f8a_d6d6 ∷ 0x2b4b_cb61 ∷ 0x350c_9b64
    ∷ 0x31cd_86d3 ∷ 0x3c8e_a00a ∷ 0x384f_bdbd ∷ 0x4c11_db70 ∷ 0x48d0_c6c7 ∷ 0x4593_e01e
    ∷ 0x4152_fda9 ∷ 0x5f15_adac ∷ 0x5bd4_b01b ∷ 0x5697_96c2 ∷ 0x5256_8b75 ∷ 0x6a19_36c8
    ∷ 0x6ed8_2b7f ∷ 0x639b_0da6 ∷ 0x675a_1011 ∷ 0x791d_4014 ∷ 0x7ddc_5da3 ∷ 0x709f_7b7a
    ∷ 0x745e_66cd ∷ 0x9823_b6e0 ∷ 0x9ce2_ab57 ∷ 0x91a1_8d8e ∷ 0x9560_9039 ∷ 0x8b27_c03c
    ∷ 0x8fe6_dd8b ∷ 0x82a5_fb52 ∷ 0x8664_e6e5 ∷ 0xbe2b_5b58 ∷ 0xbaea_46ef ∷ 0xb7a9_6036
    ∷ 0xb368_7d81 ∷ 0xad2f_2d84 ∷ 0xa9ee_3033 ∷ 0xa4ad_16ea ∷ 0xa06c_0b5d ∷ 0xd432_6d90
    ∷ 0xd0f3_7027 ∷ 0xddb0_56fe ∷ 0xd971_4b49 ∷ 0xc736_1b4c ∷ 0xc3f7_06fb ∷ 0xceb4_2022
    ∷ 0xca75_3d95 ∷ 0xf23a_8028 ∷ 0xf6fb_9d9f ∷ 0xfbb8_bb46 ∷ 0xff79_a6f1 ∷ 0xe13e_f6f4
    ∷ 0xe5ff_eb43 ∷ 0xe8bc_cd9a ∷ 0xec7d_d02d ∷ 0x3486_7077 ∷ 0x3047_6dc0 ∷ 0x3d04_4b19
    ∷ 0x39c5_56ae ∷ 0x2782_06ab ∷ 0x2343_1b1c ∷ 0x2e00_3dc5 ∷ 0x2ac1_2072 ∷ 0x128e_9dcf
    ∷ 0x164f_8078 ∷ 0x1b0c_a6a1 ∷ 0x1fcd_bb16 ∷ 0x018a_eb13 ∷ 0x054b_f6a4 ∷ 0x0808_d07d
    ∷ 0x0cc9_cdca ∷ 0x7897_ab07 ∷ 0x7c56_b6b0 ∷ 0x7115_9069 ∷ 0x75d4_8dde ∷ 0x6b93_dddb
    ∷ 0x6f52_c06c ∷ 0x6211_e6b5 ∷ 0x66d0_fb02 ∷ 0x5e9f_46bf ∷ 0x5a5e_5b08 ∷ 0x571d_7dd1
    ∷ 0x53dc_6066 ∷ 0x4d9b_3063 ∷ 0x495a_2dd4 ∷ 0x4419_0b0d ∷ 0x40d8_16ba ∷ 0xaca5_c697
    ∷ 0xa864_db20 ∷ 0xa527_fdf9 ∷ 0xa1e6_e04e ∷ 0xbfa1_b04b ∷ 0xbb60_adfc ∷ 0xb623_8b25
    ∷ 0xb2e2_9692 ∷ 0x8aad_2b2f ∷ 0x8e6c_3698 ∷ 0x832f_1041 ∷ 0x87ee_0df6 ∷ 0x99a9_5df3
    ∷ 0x9d68_4044 ∷ 0x902b_669d ∷ 0x94ea_7b2a ∷ 0xe0b4_1de7 ∷ 0xe475_0050 ∷ 0xe936_2689
    ∷ 0xedf7_3b3e ∷ 0xf3b0_6b3b ∷ 0xf771_768c ∷ 0xfa32_5055 ∷ 0xfef3_4de2 ∷ 0xc6bc_f05f
    ∷ 0xc27d_ede8 ∷ 0xcf3e_cb31 ∷ 0xcbff_d686 ∷ 0xd5b8_8683 ∷ 0xd179_9b34 ∷ 0xdc3a_bded
    ∷ 0xd8fb_a05a ∷ 0x690c_e0ee ∷ 0x6dcd_fd59 ∷ 0x608e_db80 ∷ 0x644f_c637 ∷ 0x7a08_9632
    ∷ 0x7ec9_8b85 ∷ 0x738a_ad5c ∷ 0x774b_b0eb ∷ 0x4f04_0d56 ∷ 0x4bc5_10e1 ∷ 0x4686_3638
    ∷ 0x4247_2b8f ∷ 0x5c00_7b8a ∷ 0x58c1_663d ∷ 0x5582_40e4 ∷ 0x5143_5d53 ∷ 0x251d_3b9e
    ∷ 0x21dc_2629 ∷ 0x2c9f_00f0 ∷ 0x285e_1d47 ∷ 0x3619_4d42 ∷ 0x32d8_50f5 ∷ 0x3f9b_762c
    ∷ 0x3b5a_6b9b ∷ 0x0315_d626 ∷ 0x07d4_cb91 ∷ 0x0a97_ed48 ∷ 0x0e56_f0ff ∷ 0x1011_a0fa
    ∷ 0x14d0_bd4d ∷ 0x1993_9b94 ∷ 0x1d52_8623 ∷ 0xf12f_560e ∷ 0xf5ee_4bb9 ∷ 0xf8ad_6d60
    ∷ 0xfc6c_70d7 ∷ 0xe22b_20d2 ∷ 0xe6ea_3d65 ∷ 0xeba9_1bbc ∷ 0xef68_060b ∷ 0xd727_bbb6
    ∷ 0xd3e6_a601 ∷ 0xdea5_80d8 ∷ 0xda64_9d6f ∷ 0xc423_cd6a ∷ 0xc0e2_d0dd ∷ 0xcda1_f604
    ∷ 0xc960_ebb3 ∷ 0xbd3e_8d7e ∷ 0xb9ff_90c9 ∷ 0xb4bc_b610 ∷ 0xb07d_aba7 ∷ 0xae3a_fba2
    ∷ 0xaafb_e615 ∷ 0xa7b8_c0cc ∷ 0xa379_dd7b ∷ 0x9b36_60c6 ∷ 0x9ff7_7d71 ∷ 0x92b4_5ba8
    ∷ 0x9675_461f ∷ 0x8832_161a ∷ 0x8cf3_0bad ∷ 0x81b0_2d74 ∷ 0x8571_30c3 ∷ 0x5d8a_9099
    ∷ 0x594b_8d2e ∷ 0x5408_abf7 ∷ 0x50c9_b640 ∷ 0x4e8e_e645 ∷ 0x4a4f_fbf2 ∷ 0x470c_dd2b
    ∷ 0x43cd_c09c ∷ 0x7b82_7d21 ∷ 0x7f43_6096 ∷ 0x7200_464f ∷ 0x76c1_5bf8 ∷ 0x6886_0bfd
    ∷ 0x6c47_164a ∷ 0x6104_3093 ∷ 0x65c5_2d24 ∷ 0x119b_4be9 ∷ 0x155a_565e ∷ 0x1819_7087
    ∷ 0x1cd8_6d30 ∷ 0x029f_3d35 ∷ 0x065e_2082 ∷ 0x0b1d_065b ∷ 0x0fdc_1bec ∷ 0x3793_a651
    ∷ 0x3352_bbe6 ∷ 0x3e11_9d3f ∷ 0x3ad0_8088 ∷ 0x2497_d08d ∷ 0x2056_cd3a ∷ 0x2d15_ebe3
    ∷ 0x29d4_f654 ∷ 0xc5a9_2679 ∷ 0xc168_3bce ∷ 0xcc2b_1d17 ∷ 0xc8ea_00a0 ∷ 0xd6ad_50a5
    ∷ 0xd26c_4d12 ∷ 0xdf2f_6bcb ∷ 0xdbee_767c ∷ 0xe3a1_cbc1 ∷ 0xe760_d676 ∷ 0xea23_f0af
    ∷ 0xeee2_ed18 ∷ 0xf0a5_bd1d ∷ 0xf464_a0aa ∷ 0xf927_8673 ∷ 0xfde6_9bc4 ∷ 0x89b8_fd09
    ∷ 0x8d79_e0be ∷ 0x803a_c667 ∷ 0x84fb_dbd0 ∷ 0x9abc_8bd5 ∷ 0x9e7d_9662 ∷ 0x933e_b0bb
    ∷ 0x97ff_ad0c ∷ 0xafb0_10b1 ∷ 0xab71_0d06 ∷ 0xa632_2bdf ∷ 0xa2f3_3668 ∷ 0xbcb4_666d
    ∷ 0xb875_7bda ∷ 0xb536_5d03 ∷ 0xb1f7_40b4 ∷ []

unfoldable pub crc32_tbl256_814141ab : List ℕ
crc32_tbl256_814141ab =
    0x0000_0000 ∷ 0x8141_41ab ∷ 0x83c3_c2fd ∷ 0x0282_8356 ∷ 0x86c6_c451 ∷ 0x0787_85fa ∷ 0x0505_06ac
    ∷ 0x8444_4707 ∷ 0x8ccc_c909 ∷ 0x0d8d_88a2 ∷ 0x0f0f_0bf4 ∷ 0x8e4e_4a5f ∷ 0x0a0a_0d58
    ∷ 0x8b4b_4cf3 ∷ 0x89c9_cfa5 ∷ 0x0888_8e0e ∷ 0x98d8_d3b9 ∷ 0x1999_9212 ∷ 0x1b1b_1144
    ∷ 0x9a5a_50ef ∷ 0x1e1e_17e8 ∷ 0x9f5f_5643 ∷ 0x9ddd_d515 ∷ 0x1c9c_94be ∷ 0x1414_1ab0
    ∷ 0x9555_5b1b ∷ 0x97d7_d84d ∷ 0x1696_99e6 ∷ 0x92d2_dee1 ∷ 0x1393_9f4a ∷ 0x1111_1c1c
    ∷ 0x9050_5db7 ∷ 0xb0f0_e6d9 ∷ 0x31b1_a772 ∷ 0x3333_2424 ∷ 0xb272_658f ∷ 0x3636_2288
    ∷ 0xb777_6323 ∷ 0xb5f5_e075 ∷ 0x34b4_a1de ∷ 0x3c3c_2fd0 ∷ 0xbd7d_6e7b ∷ 0xbfff_ed2d
    ∷ 0x3ebe_ac86 ∷ 0xbafa_eb81 ∷ 0x3bbb_aa2a ∷ 0x3939_297c ∷ 0xb878_68d7 ∷ 0x2828_3560
    ∷ 0xa969_74cb ∷ 0xabeb_f79d ∷ 0x2aaa_b636 ∷ 0xaeee_f131 ∷ 0x2faf_b09a ∷ 0x2d2d_33cc
    ∷ 0xac6c_7267 ∷ 0xa4e4_fc69 ∷ 0x25a5_bdc2 ∷ 0x2727_3e94 ∷ 0xa666_7f3f ∷ 0x2222_3838
    ∷ 0xa363_7993 ∷ 0xa1e1_fac5 ∷ 0x20a0_bb6e ∷ 0xe0a0_8c19 ∷ 0x61e1_cdb2 ∷ 0x6363_4ee4
    ∷ 0xe222_0f4f ∷ 0x6666_4848 ∷ 0xe727_09e3 ∷ 0xe5a5_8ab5 ∷ 0x64e4_cb1e ∷ 0x6c6c_4510
    ∷ 0xed2d_04bb ∷ 0xefaf_87ed ∷ 0x6eee_c646 ∷ 0xeaaa_8141 ∷ 0x6beb_c0ea ∷ 0x6969_43bc
    ∷ 0xe828_0217 ∷ 0x7878_5fa0 ∷ 0xf939_1e0b ∷ 0xfbbb_9d5d ∷ 0x7afa_dcf6 ∷ 0xfebe_9bf1
    ∷ 0x7fff_da5a ∷ 0x7d7d_590c ∷ 0xfc3c_18a7 ∷ 0xf4b4_96a9 ∷ 0x75f5_d702 ∷ 0x7777_5454
    ∷ 0xf636_15ff ∷ 0x7272_52f8 ∷ 0xf333_1353 ∷ 0xf1b1_9005 ∷ 0x70f0_d1ae ∷ 0x5050_6ac0
    ∷ 0xd111_2b6b ∷ 0xd393_a83d ∷ 0x52d2_e996 ∷ 0xd696_ae91 ∷ 0x57d7_ef3a ∷ 0x5555_6c6c
    ∷ 0xd414_2dc7 ∷ 0xdc9c_a3c9 ∷ 0x5ddd_e262 ∷ 0x5f5f_6134 ∷ 0xde1e_209f ∷ 0x5a5a_6798
    ∷ 0xdb1b_2633 ∷ 0xd999_a565 ∷ 0x58d8_e4ce ∷ 0xc888_b979 ∷ 0x49c9_f8d2 ∷ 0x4b4b_7b84
    ∷ 0xca0a_3a2f ∷ 0x4e4e_7d28 ∷ 0xcf0f_3c83 ∷ 0xcd8d_bfd5 ∷ 0x4ccc_fe7e ∷ 0x4444_7070
    ∷ 0xc505_31db ∷ 0xc787_b28d ∷ 0x46c6_f326 ∷ 0xc282_b421 ∷ 0x43c3_f58a ∷ 0x4141_76dc
    ∷ 0xc000_3777 ∷ 0x4000_5999 ∷ 0xc141_1832 ∷ 0xc3c3_9b64 ∷ 0x4282_dacf ∷ 0xc6c6_9dc8
    ∷ 0x4787_dc63 ∷ 0x4505_5f35 ∷ 0xc444_1e9e ∷ 0xcccc_9090 ∷ 0x4d8d_d13b ∷ 0x4f0f_526d
    ∷ 0xce4e_13c6 ∷ 0x4a0a_54c1 ∷ 0xcb4b_156a ∷ 0xc9c9_963c ∷ 0x4888_d797 ∷ 0xd8d8_8a20
    ∷ 0x5999_cb8b ∷ 0x5b1b_48dd ∷ 0xda5a_0976 ∷ 0x5e1e_4e71 ∷ 0xdf5f_0fda ∷ 0xdddd_8c8c
    ∷ 0x5c9c_cd27 ∷ 0x5414_4329 ∷ 0xd555_0282 ∷ 0xd7d7_81d4 ∷ 0x5696_c07f ∷ 0xd2d2_8778
    ∷ 0x5393_c6d3 ∷ 0x5111_4585 ∷ 0xd050_042e ∷ 0xf0f0_bf40 ∷ 0x71b1_feeb ∷ 0x7333_7dbd
    ∷ 0xf272_3c16 ∷ 0x7636_7b11 ∷ 0xf777_3aba ∷ 0xf5f5_b9ec ∷ 0x74b4_f847 ∷ 0x7c3c_7649
    ∷ 0xfd7d_37e2 ∷ 0xffff_b4b4 ∷ 0x7ebe_f51f ∷ 0xfafa_b218 ∷ 0x7bbb_f3b3 ∷ 0x7939_70e5
    ∷ 0xf878_314e ∷ 0x6828_6cf9 ∷ 0xe969_2d52 ∷ 0xebeb_ae04 ∷ 0x6aaa_efaf ∷ 0xeeee_a8a8
    ∷ 0x6faf_e903 ∷ 0x6d2d_6a55 ∷ 0xec6c_2bfe ∷ 0xe4e4_a5f0 ∷ 0x65a5_e45b ∷ 0x6727_670d
    ∷ 0xe666_26a6 ∷ 0x6222_61a1 ∷ 0xe363_200a ∷ 0xe1e1_a35c ∷ 0x60a0_e2f7 ∷ 0xa0a0_d580
    ∷ 0x21e1_942b ∷ 0x2363_177d ∷ 0xa222_56d6 ∷ 0x2666_11d1 ∷ 0xa727_507a ∷ 0xa5a5_d32c
    ∷ 0x24e4_9287 ∷ 0x2c6c_1c89 ∷ 0xad2d_5d22 ∷ 0xafaf_de74 ∷ 0x2eee_9fdf ∷ 0xaaaa_d8d8
    ∷ 0x2beb_9973 ∷ 0x2969_1a25 ∷ 0xa828_5b8e ∷ 0x3878_0639 ∷ 0xb939_4792 ∷ 0xbbbb_c4c4
    ∷ 0x3afa_856f ∷ 0xbebe_c268 ∷ 0x3fff_83c3 ∷ 0x3d7d_0095 ∷ 0xbc3c_413e ∷ 0xb4b4_cf30
    ∷ 0x35f5_8e9b ∷ 0x3777_0dcd ∷ 0xb636_4c66 ∷ 0x3272_0b61 ∷ 0xb333_4aca ∷ 0xb1b1_c99c
    ∷ 0x30f0_8837 ∷ 0x1050_3359 ∷ 0x9111_72f2 ∷ 0x9393_f1a4 ∷ 0x12d2_b00f ∷ 0x9696_f708
    ∷ 0x17d7_b6a3 ∷ 0x1555_35f5 ∷ 0x9414_745e ∷ 0x9c9c_fa50 ∷ 0x1ddd_bbfb ∷ 0x1f5f_38ad
    ∷ 0x9e1e_7906 ∷ 0x1a5a_3e01 ∷ 0x9b1b_7faa ∷ 0x9999_fcfc ∷ 0x18d8_bd57 ∷ 0x8888_e0e0
    ∷ 0x09c9_a14b ∷ 0x0b4b_221d ∷ 0x8a0a_63b6 ∷ 0x0e4e_24b1 ∷ 0x8f0f_651a ∷ 0x8d8d_e64c
    ∷ 0x0ccc_a7e7 ∷ 0x0444_29e9 ∷ 0x8505_6842 ∷ 0x8787_eb14 ∷ 0x06c6_aabf ∷ 0x8282_edb8
    ∷ 0x03c3_ac13 ∷ 0x0141_2f45 ∷ 0x8000_6eee ∷ []
